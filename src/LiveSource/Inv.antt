-- ===== src/LiveSource/Inv.antt =====
-- The lifecycle invariant of `SharedLiveSource` in src/transport/p2p/shared-live-source.ts.
pub mod Teardown
pub mod Steps
pub mod Calls
pub mod Expiries
pub mod Dispose
pub mod Streams
pub mod Pulls
use eufy_sdk.Prelude.{
  ℕ, suc, ◌+◌, ◌≤◌, ◌≡◌, refl, sym, ◌∙◌, ap, subst, Bool, true, false, not, ◌&&◌, ◌||◌, List, [],
  ◌∷◌, ◌++◌, Option, none, some, length, ◌==◌, if◌then◌else◌, arith, Bool-cases, Option-cases, inl,
  inr,
}
use eufy_sdk.KeyMap.{lookup, insert, delete}
use eufy_sdk.LiveConsumer.{choose, Consumer}
use eufy_sdk.LiveSource.{
  LiveState, idle, warming, live, lingering, stopped, Action, started, ended, nudged, on_active,
  on_idle, on_start_failed, on_session_unreachable, Source, new_source, act, arm, is_some,
  is_lingering, open_stream, warm, settle_reuse_watch, on_detach, settle, on_consumer,
  each_consumer, release_stream, teardown,
}

unfoldable pub is_running : LiveState → Bool
is_running warming = true
is_running live = true
is_running _ = false

abbrev pub one_if : Bool → ℕ
one_if true = 1
one_if false = 0

-- How many of the actions satisfy a test.
unfoldable pub count : (Action → Bool) → List Action → ℕ
count p [] = 0
count p (a ∷ more) = let n = count p more in if p a then suc n else n

pub count-snoc :
    (p : Action → Bool) (a : Action) (xs : List Action)
    → count p (xs ++ (a ∷ [])) ≡ count p xs + one_if (p a)
unfolding count
count-snoc p a [] = elim (Bool-cases (p a)) [ inl e ↦ rw e refl | inr e ↦ rw e refl ]
count-snoc p a (x ∷ xs) = ground (arith, count-snoc p a xs)

unfoldable pub is_active : Action → Bool
is_active on_active = true
is_active _ = false

unfoldable pub is_idle : Action → Bool
is_idle on_idle = true
is_idle _ = false

unfoldable pub is_started : Action → Bool
is_started (started id) = true
is_started _ = false

unfoldable pub is_ended : Action → Bool
is_ended (ended id) = true
is_ended _ = false

unfoldable pub is_failure : Action → Bool
is_failure on_start_failed = true
is_failure _ = false

-- No consumer.
abbrev pub is_lonely : List (ℕ × Consumer) → Bool
is_lonely [] = true
is_lonely (c ∷ cs) = false

-- Of what the source has done: the owner was told of a first consumer once more than of the last's
-- leave, where there is a consumer, and else as often; each stream but the current one was stopped once;
-- at most one failure was reported for each stream that was dropped.
pub record IsBalanced (stream lonely : Bool) (done : List Action) : Type 0 where
  pub users : count is_active done ≡ count is_idle done + one_if (not lonely)
  pub pulls : count is_started done ≡ count is_ended done + one_if stream
  pub failures : count is_failure done + one_if stream ≤ count is_started done

-- `timers` says that a timer of the stream is pending.
pub record Shape (stream lonely linger : Bool) (state : LiveState) (disposed timers : Bool)
    : Type 0 where
  pub running : is_running state ≡ true → (stream ≡ true) × (lonely ≡ false)
  pub lingers : linger ≡ is_lingering state
  pub unattended : is_lingering state ≡ true → lonely ≡ true
  pub pulled : stream ≡ true → (is_running state || is_lingering state) ≡ true
  pub timed : timers ≡ true → stream ≡ true
  pub retired : disposed ≡ true → (lonely ≡ true) × (stream ≡ false) × (is_lingering state ≡ false)

pub record Inv (s : Source) : Type 0 where
  pub shape :
      Shape
        (is_some s.stream)
        (is_lonely s.consumers)
        s.linger
        s.state
        s.disposed
        (s.retry || s.deadline || s.budget_timer || s.grace)
  pub balance : IsBalanced (is_some s.stream) (is_lonely s.consumers) s.done

pub Shape-of :
    (stream lonely linger : Bool) (state : LiveState) (disposed timers : Bool)
    → (is_running state ≡ true → (stream ≡ true) × (lonely ≡ false))
      × (linger ≡ is_lingering state)
      × (is_lingering state ≡ true → lonely ≡ true)
      × (stream ≡ true → (is_running state || is_lingering state) ≡ true)
      × (timers ≡ true → stream ≡ true)
      × (disposed ≡ true → (lonely ≡ true) × (stream ≡ false) × (is_lingering state ≡ false))
    → Shape stream lonely linger state disposed timers
Shape-of st lo li state d t (a, b, c, e, f, g) = record {
  running = a;
  lingers = b;
  unattended = c;
  pulled = e;
  timed = f;
  retired = g;
}

pub IsBalanced-of :
    (stream lonely : Bool) (done : List Action)
    → (count is_active done ≡ count is_idle done + one_if (not lonely))
      × (count is_started done ≡ count is_ended done + one_if stream)
      × (count is_failure done + one_if stream ≤ count is_started done)
    → IsBalanced stream lonely done
IsBalanced-of st lo done (a, b, c) = record { users = a; pulls = b; failures = c }

pub new_source-Inv : Inv new_source
unfolding new_source is_running
new_source-Inv = record {
  shape = Shape-of _ _ _ _ _ _ (ground arith);
  balance = IsBalanced-of _ _ _ (unfold count in (refl, refl, omega arith));
}

-- What one action more does to the balance.
module _ (stream lonely : Bool) (done : List Action) where
  all_counts :
      (a : Action)
      → (count is_active (done ++ (a ∷ [])) ≡ count is_active done + one_if (is_active a))
        × (count is_idle (done ++ (a ∷ [])) ≡ count is_idle done + one_if (is_idle a))
        × (count is_started (done ++ (a ∷ [])) ≡ count is_started done + one_if (is_started a))
        × (count is_ended (done ++ (a ∷ [])) ≡ count is_ended done + one_if (is_ended a))
        × (count is_failure (done ++ (a ∷ [])) ≡ count is_failure done + one_if (is_failure a))
  all_counts a = (
    count-snoc is_active a done,
    count-snoc is_idle a done,
    count-snoc is_started a done,
    count-snoc is_ended a done,
    count-snoc is_failure a done,
  )

  pub idle_balance : IsBalanced stream false done → IsBalanced stream true (done ++ (on_idle ∷ []))
  unfolding is_active is_idle is_started is_ended is_failure
  idle_balance b =
      IsBalanced-of _ _ _ (omega (arith, all_counts on_idle, b.users, b.pulls, b.failures))

  pub active_balance :
      IsBalanced stream true done → IsBalanced stream false (done ++ (on_active ∷ []))
  unfolding is_active is_idle is_started is_ended is_failure
  active_balance b =
      IsBalanced-of _ _ _ (omega (arith, all_counts on_active, b.users, b.pulls, b.failures))

  pub started_balance :
      (id : ℕ) → IsBalanced false lonely done → IsBalanced true lonely (done ++ (started id ∷ []))
  unfolding is_active is_idle is_started is_ended is_failure
  started_balance id b =
      IsBalanced-of _ _ _ (omega (arith, all_counts (started id), b.users, b.pulls, b.failures))

  pub ended_balance :
      (id : ℕ) → IsBalanced true lonely done → IsBalanced false lonely (done ++ (ended id ∷ []))
  unfolding is_active is_idle is_started is_ended is_failure
  ended_balance id b =
      IsBalanced-of _ _ _ (omega (arith, all_counts (ended id), b.users, b.pulls, b.failures))

  -- A failure is reported while one stream more was started than failures were reported.
  pub failed_balance :
      IsBalanced false lonely done
      → count is_failure done + 1 ≤ count is_started done
      → IsBalanced false lonely (done ++ (on_start_failed ∷ []))
  unfolding is_active is_idle is_started is_ended is_failure
  failed_balance b h =
      IsBalanced-of _ _ _ (omega (arith, all_counts on_start_failed, b.users, b.pulls, b.failures))

  -- An action that is none of those counted.
  pub other_balance :
      (a : Action)
      → (is_active a || is_idle a || is_started a || is_ended a || is_failure a) ≡ false
      → IsBalanced stream lonely done
      → IsBalanced stream lonely (done ++ (a ∷ []))
  other_balance a h b =
      IsBalanced-of _ _ _ (ground (arith, h, all_counts a, b.users, b.pulls, b.failures))

-- Where a consumer is on the map, or is put there, the map is not empty.
lookup_busy :
    (id : ℕ) (c : Consumer) (cs : List (ℕ × Consumer))
    → lookup id cs ≡ some c
    → is_lonely cs ≡ false
unfolding lookup
lookup_busy id c [] h = absurd (ground (arith, h))
lookup_busy id c (x ∷ cs) h = refl

pub insert_busy :
    (id : ℕ) (c : Consumer) (cs : List (ℕ × Consumer)) → is_lonely (insert id c cs) ≡ false
unfolding insert
insert_busy id c [] = refl
insert_busy id c ((j, x) ∷ cs) = ground arith

pub length-lonely : (cs : List (ℕ × Consumer)) → (length cs == 0) ≡ is_lonely cs
length-lonely [] = refl
length-lonely (c ∷ cs) = ground arith

pub consumers-Inv :
    (s : Source) (cs : List (ℕ × Consumer))
    → is_lonely cs ≡ is_lonely s.consumers
    → Inv s
    → Inv (record s { consumers = cs })
consumers-Inv s cs same v = record {
  shape =
      subst
        (λ b.
          Shape (is_some s.stream) b s.linger s.state s.disposed
            (s.retry || s.deadline || s.budget_timer || s.grace))
        (sym same) v.shape;
  balance = subst (λ b. IsBalanced (is_some s.stream) b s.done) (sym same) v.balance;
}

-- The last consumer leaves, or another one.
pub on_detach-Inv :
    (id : ℕ) (s : Source) → is_lonely s.consumers ≡ false → Inv s → Inv (on_detach id s)
unfolding on_detach
on_detach-Inv id s busy v =
    let left = delete id s.consumers in
    let s' = record s { consumers = left } in
    choose Inv ((length left == 0) && not s.disposed) (arm (act on_idle s')) s'
      (λ e.
        let alone : is_lonely left ≡ true = ground (arith, e, length-lonely left) in
        record {
          shape = Shape-of _ _ _ _ _ _ (
              unfold is_running in
              ground (arith, e, alone, busy, v.shape.running, v.shape.retired, v.shape.timed));
          balance = rw alone (
              idle_balance (is_some s.stream) true s.done
                (subst (λ b. IsBalanced (is_some s.stream) b s.done) busy v.balance));
        })
      (λ e.
        let still : is_lonely left ≡ false =
          ground (arith, e, length-lonely left, busy, v.shape.retired) in
        consumers-Inv s left (still ∙ sym busy) v)

pub on_consumer-Inv :
    (f : Consumer → Consumer) (id : ℕ) (s : Source) → Inv s → Inv (on_consumer f id s)
unfolding on_consumer settle
on_consumer-Inv f id s v = elim (Option-cases (lookup id s.consumers)) [
  | inl e ↦ rw (e, on_consumer) v
  | inr (c, e) ↦
      let busy = lookup_busy id c s.consumers e in
      rw (e, on_consumer)
        (choose Inv (f c).detached (on_detach id s)
          (record s { consumers = insert id (f c) s.consumers }) (λ _. on_detach-Inv id s busy v)
          (λ _.
            consumers-Inv s (insert id (f c) s.consumers)
              (insert_busy id (f c) s.consumers ∙ sym busy) v))
]

pub each_consumer-Inv :
    (f : Consumer → Consumer) (ids : List ℕ) (s : Source) → Inv s → Inv (each_consumer f ids s)
unfolding each_consumer
each_consumer-Inv f [] s v = v
each_consumer-Inv f (id ∷ ids) s v =
    each_consumer-Inv f ids (on_consumer f id s) (on_consumer-Inv f id s v)
