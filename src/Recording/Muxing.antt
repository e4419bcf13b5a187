-- ===== src/Recording/Muxing.antt =====
-- The muxer of src/transport/p2p/fragment-recording.ts run alone, over what happens to a recording.
use eufy_sdk.Prelude.{◌≡◌, refl, sym, List, [], ◌∷◌, ◌++◌, append_assoc, Option, none, some}
use eufy_sdk.LiveConsumer.{TimedFrame}
use eufy_sdk.Recording.{Muxed, made, threw, Muxer, to_list}

-- What happens to a recording: a frame comes, it is stopped, or it fails.
pub data Action : Type 0 where
  frame : TimedFrame → Action
  stops fails : Action

-- The muxer alone, none once the recording is over: the fragments that each action makes.
unfoldable pub after_push : {M F : Type 0} → Muxed F × M → List F × Option M
after_push (made fragment, m) = (to_list fragment, some m)
after_push (threw error, m) = ([], none)

unfoldable pub after_flush : {M F : Type 0} → Muxed F × M → List F × Option M
after_flush (made tail, m) = (to_list tail, none)
after_flush (threw error, m) = ([], some m)

module _ {M F : Type 0} (muxer : Muxer M F) where
  unfoldable pub muxes : Action → Option M → List F × Option M
  muxes action none = ([], none)
  muxes (frame item) (some m) = after_push (muxer.push item m)
  muxes stops (some m) = after_flush (muxer.flush m)
  muxes fails (some m) = ([], none)

  unfoldable pub made_of : List Action → Option M → List F
  made_of [] o = []
  made_of (a ∷ acts) o = (muxes a o).0 ++ made_of acts (muxes a o).1

  unfoldable pub muxer_after : List Action → Option M → Option M
  muxer_after [] o = o
  muxer_after (a ∷ acts) o = muxer_after acts (muxes a o).1

  pub made_of-append :
      (acts more : List Action) (o : Option M)
      → made_of (acts ++ more) o ≡ made_of acts o ++ made_of more (muxer_after acts o)
  unfolding made_of muxer_after
  made_of-append [] more o = refl
  made_of-append (a ∷ acts) more o = rw (made_of-append acts more (muxes a o).1) (
      sym (
        append_assoc (muxes a o).0 (made_of acts (muxes a o).1)
          (made_of more (muxer_after acts (muxes a o).1))))

  pub muxer_after-append :
      (acts more : List Action) (o : Option M)
      → muxer_after (acts ++ more) o ≡ muxer_after more (muxer_after acts o)
  unfolding muxer_after
  muxer_after-append [] more o = refl
  muxer_after-append (a ∷ acts) more o = muxer_after-append acts more (muxes a o).1
