-- ===== src/StoredImageCache/Tests.antt =====
-- src/transport/stored-image-cache.ts: two pushes for one device, and one for another.
use eufy_sdk.Prelude.{ℕ, ◌≡◌, ◌⊎◌, refl, true, false, Bool, List, [], ◌∷◌, some}
use eufy_sdk.KeyMap.{lookup, insert, delete, without, has}
use eufy_sdk.StoredImageCache.{
  Candidate, Cache, resolved, start, observe, pump, pump_loop, find_ready, launch, complete,
  is_valid_jpeg, is_newer,
}
use eufy_sdk.StoredImageCache.{snapshot_stored, stored, finish, settle, settle_device}
use eufy_sdk.StoredImageCache.Pump.{retained_of}
use eufy_sdk.StoredImageCache.Reach.{
  Reach, here, next, observes, settles, snapshot_stored-is_valid_jpeg, complete_retained,
}

abbrev lifecycle : ℕ → Bool
lifecycle e = false

abbrev pushed : Cache
pushed = observe 7 101 10 (observe 8 200 5 (observe 7 100 0 start))

pushed_reached : Reach lifecycle pushed
pushed_reached = next (next (next here (observes 7 100 0)) (observes 8 200 5)) (observes 7 101 10)

abbrev jpeg : List ℕ
jpeg = 0xff ∷ 0xd8 ∷ 0xff ∷ 1 ∷ 2 ∷ 0xff ∷ 0xd9 ∷ []

abbrev first : Candidate
first = record { id = 0; device_key = 7; url = 100; sequence = 1; observed_at = 0; generation = 0 }

first_running : lookup 1 pushed.downloads ≡ some first
unfolding observe start pump pump_loop find_ready launch lookup insert has
first_running = refl

complete_retained_example :
    (retained_of 7 (complete lifecycle 1 20 first (resolved jpeg) pushed) ≡ retained_of 7 pushed)
    ⊎ ((image : List ℕ) × (◌≡◌ {A = ℕ} 7 7)
        × (first.generation ≡ pushed.generation)
        × (resolved jpeg ≡ resolved image)
        × (is_valid_jpeg image ≡ true)
        × (is_newer first (retained_of 7 pushed) ≡ true)
        × (retained_of 7 (complete lifecycle 1 20 first (resolved jpeg) pushed) ≡ some (1, image)))
complete_retained_example =
    complete_retained lifecycle 1 20 first (resolved jpeg) 7 pushed_reached first_running

abbrev second : Candidate
second = record { id = 2; device_key = 8; url = 200; sequence = 1; observed_at = 5; generation = 0 }

second_running : lookup 3 pushed.downloads ≡ some second
unfolding observe start pump pump_loop find_ready launch lookup insert has
second_running = refl

abbrev done : Cache
done = complete lifecycle 3 20 second (resolved jpeg) pushed

done_reached : Reach lifecycle done
done_reached = next pushed_reached (settles 3 20 second (resolved jpeg) second_running)

jpeg_stored : snapshot_stored 8 done ≡ stored jpeg
unfolding snapshot_stored complete finish settle_device settle is_valid_jpeg observe start pump
    pump_loop find_ready launch lookup insert delete without has
jpeg_stored = refl

snapshot_stored-is_valid_jpeg_example :
    (is_valid_jpeg jpeg ≡ true) × (n : ℕ) × (retained_of 8 done ≡ some (n, jpeg))
snapshot_stored-is_valid_jpeg_example =
    snapshot_stored-is_valid_jpeg lifecycle 8 jpeg done_reached jpeg_stored
