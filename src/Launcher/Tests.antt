-- ===== src/Launcher/Tests.antt =====
-- The launcher at concrete inputs.
use mxdx.Prelude.{
  ℕ, ◌<◌, ◌++◌, length, ◌≡◌, refl, ◌&&◌, String, List, [], ◌∷◌, leb, retain, map, arith,
}
use mxdx.Launcher.RingBuffer.{new, push, get_range}
use mxdx.Launcher.Batcher as Batcher
use mxdx.Launcher.Batcher.{
  OutputBatcher, BatcherCall, pushed, ticked, run_calls, inputs, run_calls_lem,
}
use mxdx.Launcher.Recent.{push_all, newest, get_range-push_all}

abbrev events : List (ℕ × String)
events = (1, "a") ∷ (2, "b") ∷ (3, "c") ∷ []

get_range-push_all_example :
    get_range 1 2 (push_all events (new 2))
    ≡ map (λ e. e.1) (retain (λ e. leb 1 e.0 && leb e.0 2) (newest 2 events))
get_range-push_all_example = get_range-push_all 2 1 2 events (omega arith)

oldest_is_gone : get_range 1 2 (push_all events (new 2)) ≡ "b" ∷ []
unfolding get_range push
oldest_is_gone = refl

abbrev batcher : OutputBatcher
batcher = Batcher.new 0 3 50

abbrev typed : List BatcherCall
typed = pushed 1 (1 ∷ []) ∷ ticked 10 ∷ pushed 20 (2 ∷ 3 ∷ []) ∷ pushed 30 (4 ∷ []) ∷ ticked 90 ∷ []

run_calls_lem_example :
    ((run_calls typed batcher).1 ++ (run_calls typed batcher).0.buffer
      ≡ batcher.buffer ++ inputs typed)
    × (length (run_calls typed batcher).0.buffer < batcher.max_bytes)
unfolding Batcher.new
run_calls_lem_example = run_calls_lem typed batcher (omega arith)
