-- ===== src/LiveConsumer/Announced.antt =====
-- The announcements of a consumer's coded configuration in src/transport/p2p/shared-live-source.ts.
use eufy_sdk.Prelude.{
  ℕ, ◌≡◌, refl, sym, ap, ◌∙◌, subst, true, false, not, ◌&&◌, List, [], ◌∷◌, ◌++◌, Option, none,
  some, length, ltb, ◌==◌, arith, Option-cases, inl, inr,
}
use eufy_sdk.MapPixels.{ℤ, pos, negsuc}
use eufy_sdk.Annexb.{VideoCodec, h264, h265, av1, same_codec}
use eufy_sdk.LiveConsumer.{
  choose, VideoConfig, VideoFrame, VideoItem, TimedFrame, video, audio, Event, video_config,
  video_frame, audio_frame, media, failed, stopped, budget, Reaction, carries_on, pauses, detaches,
  Consumer, new_consumer, listen_video, schedule, detach, pause, react, hear, announce, emit,
  same_config, same_number, flush, drop_backlog_past_bound, retain_undelivered, drain, resume,
  accept, deliver_video, deliver_audio, fail, end, notify_budget,
}

-- The next event is the media event of the same video frame.
abbrev pub Accompanied : VideoFrame → List Event → Type 0
Accompanied frame rest =
    (v : VideoItem) × (more : List Event) × (rest ≡ media (video v) ∷ more) × (v.frame ≡ frame)

-- The events agree with the announcements, where `current` is the configuration announced last: a frame
-- is told of together with its media event, under its own configuration.
pub IsAnnounced : Option VideoConfig → List Event → Type 0
IsAnnounced current [] = Unit {0}
IsAnnounced current (video_config config ∷ rest) =
    (same_config config current ≡ false) × IsAnnounced (some config) rest
IsAnnounced current (media (video v) ∷ rest) =
    (same_config v.config current ≡ true) × IsAnnounced current rest
IsAnnounced current (video_frame frame ∷ rest) = Accompanied frame rest × IsAnnounced current rest
IsAnnounced current (_ ∷ rest) = IsAnnounced current rest

pub last_config : Option VideoConfig → List Event → Option VideoConfig
last_config current [] = current
last_config current (video_config config ∷ rest) = last_config (some config) rest
last_config current (_ ∷ rest) = last_config current rest

Accompanied-append :
    (f : VideoFrame) (xs ys : List Event) → Accompanied f xs → Accompanied f (xs ++ ys)
Accompanied-append f xs ys (v, more, e, same) = (v, more ++ ys, ap (λ es. es ++ ys) e, same)

IsAnnounced-append :
    (current : Option VideoConfig) (xs ys : List Event)
    → IsAnnounced current xs
    → IsAnnounced (last_config current xs) ys
    → IsAnnounced current (xs ++ ys)
unfolding IsAnnounced last_config
IsAnnounced-append current [] ys a b = b
IsAnnounced-append current (video_config c ∷ xs) ys (h, a) b =
    (h, IsAnnounced-append (some c) xs ys a b)
IsAnnounced-append current (video_frame f ∷ xs) ys (h, a) b =
    (Accompanied-append f xs ys h, IsAnnounced-append current xs ys a b)
IsAnnounced-append current (audio_frame f ∷ xs) ys a b = IsAnnounced-append current xs ys a b
IsAnnounced-append current (media (video v) ∷ xs) ys (h, a) b =
    (h, IsAnnounced-append current xs ys a b)
IsAnnounced-append current (media (audio f t) ∷ xs) ys a b = IsAnnounced-append current xs ys a b
IsAnnounced-append current (failed e ∷ xs) ys a b = IsAnnounced-append current xs ys a b
IsAnnounced-append current (stopped ∷ xs) ys a b = IsAnnounced-append current xs ys a b
IsAnnounced-append current (budget n ∷ xs) ys a b = IsAnnounced-append current xs ys a b

last_config-append :
    (current : Option VideoConfig) (xs ys : List Event)
    → last_config current (xs ++ ys) ≡ last_config (last_config current xs) ys
unfolding last_config
last_config-append current [] ys = refl
last_config-append current (video_config c ∷ xs) ys = last_config-append (some c) xs ys
last_config-append current (video_frame f ∷ xs) ys = last_config-append current xs ys
last_config-append current (audio_frame f ∷ xs) ys = last_config-append current xs ys
last_config-append current (media m ∷ xs) ys = last_config-append current xs ys
last_config-append current (failed e ∷ xs) ys = last_config-append current xs ys
last_config-append current (stopped ∷ xs) ys = last_config-append current xs ys
last_config-append current (budget n ∷ xs) ys = last_config-append current xs ys

-- The consumer's own record of the last announcement is right.
pub record Told (c : Consumer) : Type 0 where
  pub announced : IsAnnounced none c.heard
  pub current : last_config none c.heard ≡ c.config

pub new_consumer-Told : Told new_consumer
unfolding new_consumer IsAnnounced last_config
new_consumer-Told = record { announced = tt; current = refl }

same_codec_refl : (a : VideoCodec) → same_codec a a ≡ true
unfolding same_codec
same_codec_refl h264 = refl
same_codec_refl h265 = refl
same_codec_refl av1 = refl

same_number_refl : (a : ℤ) → same_number a a ≡ true
unfolding same_number
same_number_refl (pos n) = ground arith
same_number_refl (negsuc n) = ground arith

same_config_refl : (a : VideoConfig) → same_config a (some a) ≡ true
unfolding same_config
same_config_refl a =
    rw (same_codec_refl a.codec, same_number_refl a.width, same_number_refl a.height) refl

-- Events that announce nothing, and that the announcements allow.
hear-Told :
    (events : List Event) (c : Consumer)
    → IsAnnounced c.config events
    → last_config c.config events ≡ c.config
    → Told c
    → Told (hear events c)
hear-Told events c ok same t = record {
  announced =
      IsAnnounced-append none c.heard events t.announced
        (subst (λ g. IsAnnounced g events) (sym t.current) ok);
  current = last_config-append none c.heard events ∙ rw t.current same;
}

announce-Told :
    (config : VideoConfig) (c : Consumer)
    → Told c
    → Told (announce config c) × (same_config config (announce config c).config ≡ true)
unfolding announce
announce-Told config c t =
    choose (λ x. Told x × (same_config config x.config ≡ true)) (same_config config c.config) c _
      (λ e. (t, e))
      (λ e. (
        record {
          announced =
              IsAnnounced-append none c.heard (video_config config ∷ []) t.announced
                (unfold IsAnnounced in (rw t.current e, tt));
          current =
              last_config-append none c.heard (video_config config ∷ [])
              ∙ (unfold last_config in refl);
        },
        same_config_refl config,
      ))

emit-Told : (item : TimedFrame) (c : Consumer) → Told c → Told (emit item c)
unfolding emit
emit-Told (video v) c t =
    let (t', fits) = announce-Told v.config c t in
    hear-Told (video_frame v.frame ∷ media (video v) ∷ []) (announce v.config c)
      (unfold IsAnnounced in ((v, [], refl, refl), (fits, tt))) (unfold last_config in refl) t'
emit-Told (audio frame at) c t =
    hear-Told (audio_frame frame ∷ media (audio frame at) ∷ []) c (unfold IsAnnounced in tt)
      (unfold last_config in refl) t

pub detach-Told : (c : Consumer) → Told c → Told (detach c)
unfolding detach
detach-Told c t =
    choose Told c.detached c _ (λ _. t)
      (λ _. record { announced = t.announced; current = t.current })

react-Told : (r : Reaction) (c : Consumer) → Told c → Told (react r c)
unfolding react pause
react-Told carries_on c t = t
react-Told pauses c t = record { announced = t.announced; current = t.current }
react-Told detaches c t = detach-Told c t

pub listen_video-Told : (c : Consumer) → Told c → Told (listen_video c)
unfolding listen_video
listen_video-Told c t =
    choose Told c.hears_video c (record (schedule c) { hears_video = true }) (λ _. t)
      (λ _. elim (Option-cases c.pending_prime) [
        | inl e ↦ rw e (record { announced = t.announced; current = t.current })
        | inr (v, e) ↦ rw e (record { announced = t.announced; current = t.current })
      ])

module _ (sink : Consumer → Event → Reaction) (max_queue : ℕ) where
  flush-Told : (item : TimedFrame) (c : Consumer) → Told c → Told (flush sink max_queue item c)
  unfolding flush
  flush-Told item c t =
      react-Told (sink (emit item c) (media item)) (emit item c) (emit-Told item c t)

  drop_backlog-Told : (c : Consumer) → Told c → Told (drop_backlog_past_bound sink max_queue c)
  unfolding drop_backlog_past_bound
  drop_backlog-Told c t =
      choose Told (ltb max_queue (length c.queue)) _ c
        (λ _. record { announced = t.announced; current = t.current }) (λ _. t)

  drain-Told : (rest : List TimedFrame) (c : Consumer) → Told c → Told (drain sink max_queue rest c)
  unfolding drain retain_undelivered
  drain-Told [] c t = t
  drain-Told (item ∷ rest) c t =
      choose Told c.detached c _ (λ _. t)
        (λ _.
          choose Told c.paused _ _
            (λ _. drop_backlog-Told _ (record { announced = t.announced; current = t.current }))
            (λ _. drain-Told rest (flush sink max_queue item c) (flush-Told item c t)))

  pub resume-Told : (c : Consumer) → Told c → Told (resume sink max_queue c)
  unfolding resume
  resume-Told c t =
      choose Told c.detached c _ (λ _. t)
        (λ _.
          drain-Told c.queue (record c { paused = false; queue = [] })
            (record { announced = t.announced; current = t.current }))

  accept-Told : (item : TimedFrame) (c : Consumer) → Told c → Told (accept sink max_queue item c)
  unfolding accept
  accept-Told item c t =
      choose Told (not c.paused && (length c.queue == 0)) _ _ (λ _. flush-Told item c t)
        (λ _. drop_backlog-Told _ (record { announced = t.announced; current = t.current }))

  pub deliver_video-Told :
      (v : VideoItem) (c : Consumer) → Told c → Told (deliver_video sink max_queue v c)
  unfolding deliver_video
  deliver_video-Told v c t =
      choose Told c.detached c _ (λ _. t)
        (λ _.
          choose Told c.awaiting_keyframe _ _
            (λ _.
              choose Told v.frame.keyframe _ c
                (λ _.
                  accept-Told (video v) (record c { awaiting_keyframe = false })
                    (record { announced = t.announced; current = t.current }))
                (λ _. t))
            (λ _. accept-Told (video v) c t))

  pub deliver_audio-Told :
      (frame at : ℕ) (c : Consumer) → Told c → Told (deliver_audio sink max_queue frame at c)
  unfolding deliver_audio
  deliver_audio-Told frame at c t =
      choose Told c.detached c _ (λ _. t)
        (λ _. choose Told c.awaiting_keyframe c _ (λ _. t) (λ _. accept-Told (audio frame at) c t))

  notify-Told :
      (event : Event) (c : Consumer)
      → IsAnnounced c.config (event ∷ [])
      → last_config c.config (event ∷ []) ≡ c.config
      → Told c
      → Told (react (sink (hear (event ∷ []) c) event) (hear (event ∷ []) c))
  notify-Told event c ok same t =
      react-Told _ (hear (event ∷ []) c) (hear-Told (event ∷ []) c ok same t)

  pub fail-Told : (e : ℕ) (c : Consumer) → Told c → Told (fail sink max_queue e c)
  unfolding fail
  fail-Told e c t =
      choose Told c.detached c _ (λ _. t)
        (λ _.
          choose Told c.hears_errors _ c
            (λ _.
              notify-Told (failed e) c (unfold IsAnnounced in tt) (unfold last_config in refl) t)
            (λ _. t))

  pub end-Told : (c : Consumer) → Told c → Told (end sink max_queue c)
  unfolding end
  end-Told c t =
      choose Told c.detached c _ (λ _. t)
        (λ _. notify-Told stopped c (unfold IsAnnounced in tt) (unfold last_config in refl) t)

  pub notify_budget-Told : (n : ℕ) (c : Consumer) → Told c → Told (notify_budget sink max_queue n c)
  unfolding notify_budget
  notify_budget-Told n c t =
      choose Told c.detached c _ (λ _. t)
        (λ _. notify-Told (budget n) c (unfold IsAnnounced in tt) (unfold last_config in refl) t)
