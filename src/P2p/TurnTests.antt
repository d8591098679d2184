-- ===== src/P2p/TurnTests.antt =====
-- TURN credentials at concrete inputs.
use mxdx.Prelude.{◌≡◌, ◌≢◌, refl, arith, true, List, [], ◌∷◌, ◌++◌, some, push_back}
use mxdx.Prelude.Results.{ok}
use mxdx.P2p.Turn.{
  TurnCredentials, Url, HttpAnswer, answer, fetch_turn_credentials, expired, start, Wake, woken,
  run_refresh_loop,
}
use mxdx.P2p.Refresh.{SafeOrigin, fetch_turn_credentials-SafeOrigin, run_expires}

abbrev home : Url
home = record { scheme = "https"; host = some "hs.example" }

abbrev reply : HttpAnswer
reply =
    answer true (some (record { uris = "turn:t" ∷ []; username = "u"; password = "p"; ttl = 600 }))

fetch_turn_credentials-SafeOrigin_example :
    let (sent, fetched) = fetch_turn_credentials 5 home reply in
    (sent ≡ true → SafeOrigin home)
    × ((c : TurnCredentials) → fetched ≡ ok (some c) → (sent ≡ true) × (c.uris ≢ []))
fetch_turn_credentials-SafeOrigin_example = fetch_turn_credentials-SafeOrigin 5 home reply

-- Ten minutes from zero on, refreshed at half of it.
abbrev first : TurnCredentials
first = record {
  uris = "turn:t" ∷ [];
  username = "u";
  password = "p";
  ttl = 600000000000;
  fetched_at = 0;
}

abbrev renewed : TurnCredentials
renewed = record first { fetched_at = 300000000000 }

abbrev refreshes : List Wake
refreshes = woken 300000000000 300000000000 (ok (some renewed)) true ∷ []

run_expires_example :
    run_refresh_loop
      (refreshes ++ woken 600000000000 600000000000 (ok (some renewed)) true ∷ [])
      (start 0 first)
    ≡ record (run_refresh_loop refreshes (start 0 first)) {
      outcomes = push_back (run_refresh_loop refreshes (start 0 first)).outcomes expired;
    }
unfolding start
run_expires_example =
    run_expires refreshes [] 600000000000 600000000000 (ok (some renewed)) true (start 0 first)
      ((omega arith, refl), tt) (omega arith)
