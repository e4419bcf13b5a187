-- ===== src/Recording/Tests.antt =====
-- src/transport/p2p/fragment-recording.ts with a muxer that closes a fragment at every second frame.
use eufy_sdk.Prelude.{ℕ, ◌≡◌, refl, List, [], ◌∷◌, ◌++◌, none, some}
use eufy_sdk.LiveConsumer.{TimedFrame, audio}
use eufy_sdk.Recording.{
  Muxed, made, threw, Muxer, Recording, gives, new_recording, iterate, on_source, ingest,
  ingest_all, stop, pull, from_queue, take, release, with_muxed, hold, ask, nudge, with_tail,
  to_list, max_pending_fragments,
}
use eufy_sdk.Recording.Muxing.{Action, made_of, stops}
use eufy_sdk.Recording.Faithful.{answered}
use eufy_sdk.Recording.Run.{fresh, sourced, stopped, iterates, pulled, handed_by, Run-made_of}

-- The muxer holds a frame back; a fragment is the pair of times, and the tail is one time.
pair : TimedFrame → List ℕ → Muxed (List ℕ) × List ℕ
pair (audio frame at) [] = (made none, at ∷ [])
pair (audio frame at) (first ∷ rest) = (made (some (first ∷ at ∷ [])), [])
pair item waiting = (threw 1, waiting)

abbrev pairs : Muxer (List ℕ) (List ℕ)
pairs = record { push = pair; flush = λ waiting. (made (some waiting), []) }

abbrev buffered : List TimedFrame
buffered = audio 0 1 ∷ audio 0 2 ∷ audio 0 3 ∷ []

abbrev started : Recording (List ℕ) (List ℕ)
started = (iterate (on_source pairs (gives buffered) (new_recording []))).1

abbrev once : Recording (List ℕ) (List ℕ)
once = (pull pairs started).1

abbrev done : List Action
done = answered pairs [] (gives buffered) ++ (stops ∷ [])

first_handed : handed_by (pull pairs started).0 ≡ (1 ∷ 2 ∷ []) ∷ []
unfolding pair pull iterate on_source ingest_all ingest with_muxed hold nudge ask from_queue take
    release to_list max_pending_fragments new_recording handed_by
first_handed = refl

tail_waits : (stop pairs once).queue ≡ (3 ∷ []) ∷ []
unfolding pair pull iterate on_source ingest_all ingest with_muxed hold nudge ask from_queue take
    release to_list max_pending_fragments new_recording stop with_tail
tail_waits = refl

Run-made_of_example :
    ([] ++ handed_by (pull pairs started).0) ++ (stop pairs once).queue
    ≡ made_of pairs done (some [])
Run-made_of_example =
    Run-made_of pairs [] (stopped (pulled (iterates (sourced (gives buffered) fresh))))
