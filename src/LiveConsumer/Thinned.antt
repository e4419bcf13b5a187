-- ===== src/LiveConsumer/Thinned.antt =====
-- What a consumer of src/transport/p2p/shared-live-source.ts is handed of what the source sends it.
pub mod Flow
use eufy_sdk.Prelude.{
  ℕ, ◌+◌, ◌≤◌, ◌<◌, ◌≡◌, refl, sym, ◌∙◌, ap, subst, Bool, true, false, List, [], ◌∷◌, ◌++◌, Option,
  none, some, length, ltb, not, ◌&&◌, ◌==◌, if◌then◌else◌, arith, Bool-cases, inl, inr,
  append_assoc, append-nil,
}
use eufy_sdk.LiveConsumer.{
  choose, VideoItem, TimedFrame, video, audio, Event, media, Reaction, carries_on, pauses, detaches,
  Consumer, new_consumer, prime, listen_errors, listen_video, detach, pause, react, announce, emit,
  VideoConfig, video_config, video_frame, audio_frame, failed, stopped, budget, same_config,
  is_keyframe, flush, drop_backlog_past_bound, retain_undelivered, drain, resume, accept,
  deliver_video, deliver_audio, replay, fail, end, notify_budget,
}

-- The frames handed over, in order.
unfoldable pub media_of : List Event → List TimedFrame
media_of [] = []
media_of (media item ∷ rest) = item ∷ media_of rest
media_of (_ ∷ rest) = media_of rest

-- A consumer takes every frame, or waits for a keyframe, or has left.
pub data Phase : Type 0 where
  flowing waiting over : Phase

unfoldable pub phase_of : Consumer → Phase
phase_of c = if c.detached then over else if c.awaiting_keyframe then waiting else flowing

-- `got` is `sent` with gaps: a gap opens anywhere and ends at a keyframe, or with the consumer's leave.
pub data IsThinned : Phase → List TimedFrame → List TimedFrame → Type 0 where
  nothing_yet : IsThinned flowing [] []
  kept :
      {sent got : List TimedFrame} (item : TimedFrame)
      → IsThinned flowing sent got
      → IsThinned flowing (sent ++ (item ∷ [])) (got ++ (item ∷ []))
  restarted :
      {sent got : List TimedFrame} (item : TimedFrame)
      → is_keyframe item ≡ true
      → IsThinned waiting sent got
      → IsThinned flowing (sent ++ (item ∷ [])) (got ++ (item ∷ []))
  skipped :
      {sent got : List TimedFrame} (item : TimedFrame)
      → is_keyframe item ≡ false
      → IsThinned waiting sent got
      → IsThinned waiting (sent ++ (item ∷ [])) got
  dropped :
      {p : Phase} {sent got : List TimedFrame} (lost : List TimedFrame)
      → IsThinned p sent (got ++ lost)
      → IsThinned waiting sent got
  left :
      {p : Phase} {sent got : List TimedFrame} (lost : List TimedFrame)
      → IsThinned p sent (got ++ lost)
      → IsThinned over sent got
  ignored :
      {sent got : List TimedFrame} (item : TimedFrame)
      → IsThinned over sent got
      → IsThinned over (sent ++ (item ∷ [])) got

pub media_of-append : (xs ys : List Event) → media_of (xs ++ ys) ≡ media_of xs ++ media_of ys
unfolding media_of
media_of-append [] ys = refl
media_of-append (media item ∷ xs) ys = ap (◌∷◌ item) (media_of-append xs ys)
media_of-append (video_config c ∷ xs) ys = media_of-append xs ys
media_of-append (video_frame f ∷ xs) ys = media_of-append xs ys
media_of-append (audio_frame f ∷ xs) ys = media_of-append xs ys
media_of-append (failed e ∷ xs) ys = media_of-append xs ys
media_of-append (stopped ∷ xs) ys = media_of-append xs ys
media_of-append (budget n ∷ xs) ys = media_of-append xs ys

-- What a consumer was handed and what waits in its queue is what was sent, thinned.
unfoldable pub Good : List TimedFrame → Consumer → Type 0
Good sent c = IsThinned (phase_of c) sent (media_of c.heard ++ c.queue)

-- A consumer that has `item` more than before and is otherwise as before.
pub record IsEmitted (item : TimedFrame) (before after : Consumer) : Type 0 where
  pub given : media_of after.heard ≡ media_of before.heard ++ (item ∷ [])
  pub queue : after.queue ≡ before.queue
  pub phase : phase_of after ≡ phase_of before

announce_rest :
    (config : VideoConfig) (c : Consumer)
    → (media_of (announce config c).heard ≡ media_of c.heard)
      × ((announce config c).queue ≡ c.queue)
      × (phase_of (announce config c) ≡ phase_of c)
unfolding announce phase_of media_of
announce_rest config c = elim (Bool-cases (same_config config c.config)) [
  | inl e ↦ rw e (refl, refl, refl)
  | inr e ↦ rw e (
    media_of-append c.heard (video_config config ∷ []) ∙ append-nil (media_of c.heard),
    refl,
    refl,
  )
]

pub emit-IsEmitted : (item : TimedFrame) (c : Consumer) → IsEmitted item c (emit item c)
unfolding emit media_of phase_of
emit-IsEmitted (video v) c =
    let (h, q, p) = announce_rest v.config c in
    record {
      given =
          media_of-append (announce v.config c).heard (video_frame v.frame ∷ media (video v) ∷ [])
          ∙ ap (λ x. x ++ (video v ∷ [])) h;
      queue = q;
      phase = p;
    }
emit-IsEmitted (audio frame at) c = record {
  given = media_of-append c.heard (audio_frame frame ∷ media (audio frame at) ∷ []);
  queue = refl;
  phase = refl;
}

-- A record that differs in the queue only, or leaves.
leave :
    (sent lost : List TimedFrame) (c : Consumer)
    → IsThinned (phase_of c) sent (media_of c.heard ++ lost)
    → Good sent (record c { detached = true; queue = [] })
unfolding Good phase_of
leave sent lost c g =
    subst (IsThinned over sent) (sym (append-nil (media_of c.heard))) (left lost g)

pub detach_again : (c : Consumer) → c.detached ≡ true → detach c ≡ c
unfolding detach
detach_again c h = rw h refl

pub detach_first :
    (c : Consumer) → c.detached ≡ false → detach c ≡ record c { detached = true; queue = [] }
unfolding detach
detach_first c h = rw h refl

pub detach-Good : (sent : List TimedFrame) (c : Consumer) → Good sent c → Good sent (detach c)
detach-Good sent c g = elim (Bool-cases c.detached) [
  | inl e ↦ subst (Good sent) (sym (detach_again c e)) g
  | inr e ↦ subst (Good sent) (sym (detach_first c e)) (leave sent c.queue c (unfold Good in g))
]

pub react-Good :
    (sent : List TimedFrame) (r : Reaction) (c : Consumer) → Good sent c → Good sent (react r c)
unfolding react
react-Good sent carries_on c g = g
react-Good sent pauses c g = unfold Good pause phase_of in g
react-Good sent detaches c g = detach-Good sent c g

pub phase-over : (c : Consumer) → c.detached ≡ true → phase_of c ≡ over
unfolding phase_of
phase-over c h = rw h refl

pub phase-waiting :
    (c : Consumer) → c.detached ≡ false → c.awaiting_keyframe ≡ true → phase_of c ≡ waiting
unfolding phase_of
phase-waiting c h w = rw (h, w) refl

pub phase-flowing :
    (c : Consumer) → c.detached ≡ false → c.awaiting_keyframe ≡ false → phase_of c ≡ flowing
unfolding phase_of
phase-flowing c h w = rw (h, w) refl

-- A consumer whose queue is lost has left or waits.
pub lose :
    (sent lost : List TimedFrame) (c : Consumer)
    → IsThinned (phase_of c) sent (media_of c.heard ++ lost)
    → Good sent (record c { queue = []; awaiting_keyframe = true })
unfolding Good
lose sent lost c g =
    let after = record c { queue = []; awaiting_keyframe = true } in
    elim (Bool-cases c.detached) [
      | inl e ↦ rw (phase-over after e, append-nil (media_of c.heard)) (left lost g)
      | inr e ↦ rw (phase-waiting after e refl, append-nil (media_of c.heard)) (dropped lost g)
    ]

-- A test chooses what holds.
pub either :
    (sent : List TimedFrame) (b : Bool) (x y : Consumer)
    → (b ≡ true → Good sent x)
    → (b ≡ false → Good sent y)
    → Good sent (if b then x else y)
either sent = choose (Good sent)

pub in_phase :
    {p : Phase} (sent : List TimedFrame) (c : Consumer)
    → phase_of c ≡ p
    → Good sent c
    → IsThinned p sent (media_of c.heard ++ c.queue)
unfolding Good
in_phase sent c e g = rw⁻¹ e g

pub of_phase :
    {p : Phase} (sent : List TimedFrame) (c : Consumer)
    → phase_of c ≡ p
    → IsThinned p sent (media_of c.heard ++ c.queue)
    → Good sent c
unfolding Good
of_phase sent c e g = rw e g
