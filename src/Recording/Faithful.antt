-- ===== src/Recording/Faithful.antt =====
-- What a recording of src/transport/p2p/fragment-recording.ts has handed over and still holds, kept by
-- its steps.
use eufy_sdk.Prelude.{
  ℕ, ◌≡◌, refl, sym, ◌∙◌, true, List, [], ◌∷◌, ◌++◌, map, append_assoc, append-nil, none, some,
}
use eufy_sdk.LiveConsumer.{TimedFrame, choose}
use eufy_sdk.Recording.{
  Muxer, Recording, Answer, gives, refuses, fail, ingest, ingest_all, stop, on_source,
}
use eufy_sdk.Recording.Muxing.{
  Action, frame, stops, fails, muxes, made_of, muxer_after, made_of-append, muxer_after-append,
}
use eufy_sdk.Recording.Effects.{Same, Sound, live, Does, fail-Does, stop-Does, ingest-Does}

-- What was handed over and what waits, after these actions from this muxer.
pub record Faithful {M F : Type 0} (muxer : Muxer M F) (m : M) (acts : List Action)
    (handed : List F) (r : Recording M F) : Type 0 where
  pub fragments : handed ++ r.queue ≡ made_of muxer acts (some m)
  pub lives : live r ≡ muxer_after muxer acts (some m)
  pub sound : Sound r

module _ {M F : Type 0} (muxer : Muxer M F) (m : M) where
  pub does-Faithful :
      (a : Action) (acts : List Action) (handed : List F) (r after : Recording M F)
      → Faithful muxer m acts handed r
      → Does muxer a r after
      → Faithful muxer m (acts ++ (a ∷ [])) handed after
  unfolding made_of muxer_after
  does-Faithful a acts handed r after f d = record {
    fragments =
        rw
          (
            d.queued,
            f.lives,
            made_of-append muxer acts (a ∷ []) (some m),
            sym f.fragments,
            append-nil (muxes muxer a (muxer_after muxer acts (some m))).0,
          )
          (sym (append_assoc handed r.queue (muxes muxer a (muxer_after muxer acts (some m))).0));
    lives = rw (d.lives, f.lives, muxer_after-append muxer acts (a ∷ []) (some m)) refl;
    sound = d.sound;
  }

  pub unaffected-Faithful :
      (acts : List Action) (handed : List F) (r after : Recording M F)
      → Same r after
      → Faithful muxer m acts handed r
      → Faithful muxer m acts handed after
  unfolding live Sound
  unaffected-Faithful acts handed r after s f = record {
    fragments = rw s.queued f.fragments;
    lives = rw (s.at_end, s.muxed) f.lives;
    sound = rw (s.failing, s.at_end) f.sound;
  }

  ingest_all-Faithful :
      (items : List TimedFrame) (acts : List Action) (handed : List F) (r : Recording M F)
      → Faithful muxer m acts handed r
      → Faithful muxer m (acts ++ map frame items) handed (ingest_all muxer items r)
  unfolding ingest_all
  ingest_all-Faithful [] acts handed r f = rw (append-nil acts) f
  ingest_all-Faithful (item ∷ items) acts handed r f =
      rw (sym (append_assoc acts (frame item ∷ []) (map frame items))) (
        ingest_all-Faithful items (acts ++ (frame item ∷ [])) handed (ingest muxer item r) (
          does-Faithful (frame item) acts handed r (ingest muxer item r) f
            (ingest-Does muxer item r f.sound)))

  pub fail-Faithful :
      (error : ℕ) (acts : List Action) (handed : List F) (r : Recording M F)
      → Faithful muxer m acts handed r
      → Faithful muxer m (acts ++ (fails ∷ [])) handed (fail error r)
  fail-Faithful error acts handed r f =
      does-Faithful fails acts handed r (fail error r) f (fail-Does muxer error r f.sound)

  pub stop-Faithful :
      (acts : List Action) (handed : List F) (r : Recording M F)
      → Faithful muxer m acts handed r
      → Faithful muxer m (acts ++ (stops ∷ [])) handed (stop muxer r)
  stop-Faithful acts handed r f =
      does-Faithful stops acts handed r (stop muxer r) f (stop-Does muxer r f.sound)

  -- What a source's answer does.
  unfoldable pub answered : Answer → List Action
  answered (gives buffered) = map frame buffered
  answered (refuses error) = fails ∷ []

  over_all : (items : List TimedFrame) → made_of muxer (map frame items) none ≡ []
  unfolding made_of muxes
  over_all [] = refl
  over_all (item ∷ items) = over_all items

  none_after : (items : List TimedFrame) → muxer_after muxer (map frame items) none ≡ none
  unfolding muxer_after muxes
  none_after [] = refl
  none_after (item ∷ items) = none_after items

  -- Frames that come to a recording that is over.
  over-Faithful :
      (items : List TimedFrame) (acts : List Action) (handed : List F) (r : Recording M F)
      → r.ended ≡ true
      → Faithful muxer m acts handed r
      → Faithful muxer m (acts ++ map frame items) handed r
  over-Faithful items acts handed r e f =
      let off : muxer_after muxer acts (some m) ≡ none = sym f.lives ∙ (unfold live in rw e refl) in
      record {
        fragments =
            rw
              (
                made_of-append muxer acts (map frame items) (some m),
                off,
                over_all items,
                append-nil (made_of muxer acts (some m)),
              )
              f.fragments;
        lives =
            rw (muxer_after-append muxer acts (map frame items) (some m), off, none_after items)
              (f.lives ∙ off);
        sound = f.sound;
      }

  pub on_source-Faithful :
      (answer : Answer) (acts : List Action) (handed : List F) (r : Recording M F)
      → Faithful muxer m acts handed r
      → Faithful muxer m (acts ++ answered answer) handed (on_source muxer answer r)
  unfolding on_source answered
  on_source-Faithful (gives buffered) acts handed r f =
      choose (Faithful muxer m (acts ++ map frame buffered) handed) r.ended _ _
        (λ e.
          over-Faithful buffered acts handed (record r { ready = true }) e
            (unaffected-Faithful acts handed r (record r { ready = true })
              (record { queued = refl; muxed = refl; at_end = refl; failing = refl }) f))
        (λ e.
          ingest_all-Faithful buffered acts handed (record r { attached = true; ready = true })
            (unaffected-Faithful acts handed r (record r { attached = true; ready = true })
              (record { queued = refl; muxed = refl; at_end = refl; failing = refl }) f))
  on_source-Faithful (refuses error) acts handed r f =
      fail-Faithful error acts handed (record r { ready = true })
        (unaffected-Faithful acts handed r (record r { ready = true })
          (record { queued = refl; muxed = refl; at_end = refl; failing = refl }) f)
