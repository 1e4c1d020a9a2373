-- ===== src/Witness/Injecting.antt =====
-- Injected events with a gap in their numbers.
use sailfish.Base.{
  List, String, [], if◌then◌else◌, map, none, pos, refl, some, true, ℕ, ◌++◌, ◌==◌, ◌∷◌, ◌≡◌,
}
use sailfish.Inject.Queue.{Injected, Service, arrive, dropped, fire_times, judge, scan, sent, sort}
use sailfish.Inject.Order.{events, events-scan, output_events}
use sailfish.Inject.Progress.{arrive-resumes}
use sailfish.Inject.Trains.{
  Carries, Decoders, deserialize, loaded, send_to_chn, send_to_chn-Carries,
}

-- An event that carries its number.
abbrev event : ℕ → Injected ℕ
event n = record { event = n; event_seq = pos n }

-- The numbers 1, 1, 2 and 4.
abbrev arrivals : List (Injected ℕ)
arrivals = event 1 ∷ event 1 ∷ event 2 ∷ event 4 ∷ []

events-scan_example :
    output_events (scan arrivals 0).outputs ++ events (scan arrivals 0).left ≡ 1 ∷ 1 ∷ 2 ∷ 4 ∷ []
events-scan_example = events-scan arrivals 0

one_held : scan arrivals 0 ≡ record {
  outputs = sent (event 1) ∷ dropped (event 1) ∷ sent (event 2) ∷ [];
  left = event 4 ∷ [];
  reached = 2;
  missing = true;
}
unfolding scan judge
one_held = refl

-- The service that waits for the number 3.
abbrev waiting_service : Service ℕ
waiting_service = record {
  queued = event 5 ∷ event 4 ∷ [];
  internal_seq = 2;
  missing_event = true;
  tries = 1;
  armed = true;
}

waiting_sorted : sort waiting_service.queued ≡ event 4 ∷ event 5 ∷ []
unfolding sort
waiting_sorted = refl

arrive-resumes_example :
    (arrive (event 6) (fire_times 41 waiting_service)).0
    ≡ sent (event 4) ∷ (scan (event 5 ∷ event 6 ∷ []) 4).outputs
arrive-resumes_example =
    arrive-resumes waiting_service (event 4) (event 6) (event 5 ∷ []) refl waiting_sorted refl

-- Binary data: of the numbers, 4 has no text.
abbrev binary_only : Decoders ℕ String
binary_only = record {
  registered = true;
  custom = none;
  data_text = λ d. if d == 4 then none else some "x";
  binary = λ s. some s;
  json = λ d. none;
  raw = λ d. "raw";
}

send_to_chn-Carries_example :
    Carries
      (send_to_chn binary_only "binary" (some 0) (1 ∷ 2 ∷ 3 ∷ 5 ∷ 6 ∷ 4 ∷ []))
      (loaded (map (deserialize binary_only "binary") (0 ∷ 1 ∷ 2 ∷ 3 ∷ 5 ∷ 6 ∷ 4 ∷ [])))
send_to_chn-Carries_example =
    send_to_chn-Carries binary_only "binary" 0 (1 ∷ 2 ∷ 3 ∷ 5 ∷ 6 ∷ 4 ∷ [])
