-- ===== src/P2p/Glare.antt =====
-- crates/mxdx-p2p/src/signaling/glare.rs: who wins when both peers invite at once. Rust's `str::cmp`
-- is the order of the UTF-8 bytes, which is the native comparison of texts.
pub mod Agreement
use Prim.Native.Nat.{Ordering}
use Prim.Native.String.{compare}
use mxdx.Prelude.{String}

pub data GlareResult : Type 0 where
  we_win they_win : GlareResult

-- The inner `match`: a tie of the users is broken by the calls.
resolve_calls : Ordering → GlareResult
resolve_calls Ordering.lt = we_win
resolve_calls Ordering.gt = they_win
resolve_calls Ordering.eq = we_win

resolve_users : Ordering → Ordering → GlareResult
unfolding resolve_calls
resolve_users Ordering.lt calls = we_win
resolve_users Ordering.gt calls = they_win
resolve_users Ordering.eq calls = resolve_calls calls

unfoldable pub resolve : String → String → String → String → GlareResult
unfolding resolve_users
resolve our_user_id their_user_id our_call_id their_call_id =
    resolve_users (compare our_user_id their_user_id) (compare our_call_id their_call_id)

unfoldable pub invert : GlareResult → GlareResult
invert we_win = they_win
invert they_win = we_win
