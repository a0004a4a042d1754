-- ===== src/Bench/RemoteLoad/Collector/Trace.antt =====
-- The events of a run of bench/remote_load.py, and what a caller is to learn of it.
use zhtps.Common.{
  ◌≡◌, ◌≢◌, ◌⊎◌, inl, inr, refl, Bool, true, List, [], ◌∷◌, ◌++◌, map, none, String, Result, ok,
  err, runtime_error,
}
use zhtps.Json.{Json}
use zhtps.Bench.RemoteLoad.Events.{Event, sample, result, error, eof}
use zhtps.Bench.RemoteLoad.Collector.{Collector, Poll}

-- How the agent's events end.
pub data Ending : Type 0 where
  done : Json → Ending
  failed : String → Ending
  closed : Ending

abbrev pub ending_events : Ending → List Event
ending_events (done r) = result r ∷ eof ∷ []
ending_events (failed text) = error text ∷ eof ∷ []
ending_events closed = eof ∷ []

-- Samples, and then the end.
abbrev pub trace : List Json → Ending → List Event
trace xs ending = map sample xs ++ ending_events ending

abbrev pub all_events : List Poll → List Event
all_events [] = []
all_events (p ∷ ps) = p.events ++ all_events ps

-- What `completed` says in the end.
abbrev pub verdict : Ending → Result Bool
verdict (done r) = ok true
verdict (failed text) = err (runtime_error text)
verdict closed = err (runtime_error "remote agent closed without a result")

abbrev pub IsMessage : Ending → Type 0
IsMessage (failed text) = text ≢ ""
IsMessage _ = Unit

-- A batch of events is some of the samples, or all of them and the first events of the end.
pub split_batch :
    (b rest t : List Event) (xs : List Json)
    → b ++ rest ≡ map sample xs ++ t
    → ((ys : List Json) × (zs : List Json) × (xs ≡ ys ++ zs)
        × (b ≡ map sample ys)
        × (rest ≡ map sample zs ++ t))
      ⊎ ((c : Event) × (cs : List Event) × (b ≡ map sample xs ++ c ∷ cs) × (c ∷ cs ++ rest ≡ t))
split_batch [] rest t xs h = inl ([], xs, refl, refl, h)
split_batch (c ∷ cs) rest t [] h = inr (c, cs, refl, h)
split_batch (c ∷ cs) rest t (x ∷ xs) h =
    let first : c ≡ sample x = cc in
    let later : cs ++ rest ≡ map sample xs ++ t = cc in
    elim (split_batch cs rest t xs later) [
      | inl (ys, zs, e, f, g) ↦ inl (x ∷ ys, zs, cc, cc, g)
      | inr (d, ds, e, f) ↦ inr (d, ds, cc, f)
    ]

-- Neither a result nor an error was seen.
abbrev pub Waiting : Collector → Type 0
Waiting s = (s.result_event ≡ none) × (s.error_text ≡ none)
