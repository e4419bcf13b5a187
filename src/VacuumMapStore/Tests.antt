-- ===== src/VacuumMapStore/Tests.antt =====
-- src/model/vacuum-map-store.ts: the zones of one map, a later revision, and another map.
use eufy_sdk.Prelude.{◌≡◌, refl, true, false, none, some, if◌then◌else◌, ◌==◌}
use eufy_sdk.KeyMap.{lookup, insert}
use eufy_sdk.VacuumMapStore.{
  StampedKind, zones, Stamped, of_zones, of_description, VacuumMapPiece, stamped, backup,
  VacuumRestrictedZones, Store, start, empty, kind_number, is_switch, switched, store_piece,
  with_piece, put, put_all, pieces_of, apply,
}
use eufy_sdk.VacuumMapStore.Pieces.{held}
use eufy_sdk.VacuumMapStore.Coherent.{Reach, here, applies, Coherent, Reach-Coherent}
use eufy_sdk.VacuumMapStore.Updates.{apply-false, put_switch, put_repeat}

abbrev old_zones : VacuumRestrictedZones
old_zones = record { map_id = some 1; releases = 4; rest = 0 }

abbrev new_zones : VacuumRestrictedZones
new_zones = record { map_id = some 1; releases = 6; rest = 1 }

abbrev filled : Store
filled = (apply (stamped (of_zones new_zones)) start).1

filled_reached : Reach filled
filled_reached = applies (stamped (of_zones new_zones)) here

Reach-Coherent_example : Coherent filled
Reach-Coherent_example = Reach-Coherent filled_reached

abbrev late : VacuumMapPiece
late = backup (record {
  description = none;
  map = none;
  outline = none;
  rooms = none;
  zones = some old_zones;
})

late_dropped : (apply late filled).0 ≡ false
unfolding apply put_all pieces_of put store_piece switched is_switch start empty with_piece lookup
    insert
late_dropped = refl

apply-false_example : (apply late filled).1 ≡ filled
apply-false_example = apply-false late filled late_dropped

abbrev elsewhere : Stamped
elsewhere = of_description (record { map_id = some 2; releases = 1; rest = 0 })

is_elsewhere : is_switch (some 2) filled.current.map_id ≡ true
unfolding apply put store_piece switched is_switch start empty with_piece lookup insert
is_elsewhere = refl

put_switch_example :
    ((put elsewhere filled).0 ≡ true)
    × ((put elsewhere filled).1.current.map_id ≡ some 2)
    × ((put elsewhere filled).1.current.pose ≡ filled.current.pose)
    × ((k : StampedKind)
        → held k (put elsewhere filled).1.current
          ≡ (if 4 == kind_number k then some elsewhere else none))
put_switch_example = put_switch elsewhere filled is_elsewhere

first_taken : (put (of_zones old_zones) start).0 ≡ true
unfolding put store_piece switched is_switch start empty with_piece lookup insert
first_taken = refl

put_repeat_example :
    put (of_zones old_zones) (put (of_zones old_zones) start).1
    ≡ (true, (put (of_zones old_zones) start).1)
put_repeat_example = put_repeat (of_zones old_zones) start first_taken
