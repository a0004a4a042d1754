-- ===== src/Bench/RemoteLoad/Collector/Watch.antt =====
-- What a caller of `completed` of bench/remote_load.py sees of a run, however the events are spread
-- over its polls.
use text.Mathlib.Text.{◌==◌ as str_eq}
use text.Mathlib.TextEquality.{eq_iff}
use zhtps.Common.{
  ◌&&◌, and-intro, not, Bool-cases, ◌∙◌, append-nil, append_assoc, append-snoc, if◌then◌else◌, ◌≡◌,
  ◌≢◌, ◌⊎◌, inl, inr, refl, sym, ap, Bool, true, false, List, [], ◌∷◌, ◌++◌, map, none, some,
  String, Result, ok, err, runtime_error, append-nil, ◌∙◌, append-snoc,
}
use zhtps.Json.{Json}
use zhtps.Bench.RemoteLoad.Events.{Event, sample, result, error, eof}
use zhtps.Bench.RemoteLoad.Collector.{
  is_none, is_raised, result_known, text_of, is_due, beat_if, Collector, Poll, drain, handle, watch,
  completed, collect, raise_or_beat, beat, unless_completed,
}
use zhtps.Bench.RemoteLoad.Collector.Trace.{
  Ending, done, failed, closed, ending_events, trace, all_events, verdict, IsMessage, split_batch,
  Waiting,
}

module _ (show : Event → String) where
  abbrev gather : List Json → Collector → Collector
  gather ys s = record s { samples = s.samples ++ ys }

  drain-samples :
      (ys : List Json) (t : List Event) (s : Collector)
      → drain show (map sample ys ++ t) s ≡ drain show t (gather ys s)
  unfolding drain
  drain-samples [] t s =
      ap (λ l. drain show t (record s { samples = l })) (sym (append-nil s.samples))
  drain-samples (y ∷ ys) t s =
      drain-samples ys t (record s { samples = s.samples ++ y ∷ [] })
      ∙ ap (λ l. drain show t (record s { samples = l })) (append-snoc s.samples y ys)

  -- A heartbeat changes none of the rest.
  abbrev Same : Collector → Collector → Type 0
  Same t s =
      (t.samples ≡ s.samples) × (t.result_event ≡ s.result_event) × (t.error_text ≡ s.error_text)

  beat_if-Same : (due : Bool) (p : Poll) (s : Collector) → Same (beat_if show due p s) s
  beat_if-Same true p s = (refl, refl, refl)
  beat_if-Same false p s = (refl, refl, refl)

  beat-Same : (p : Poll) (s : Collector) → Same (beat show p s) s
  beat-Same p s = beat_if-Same (is_due show p s) p s

  raise_or_beat-quiet :
      (p : Poll) (s : Collector)
      → s.error_text ≡ none
      → raise_or_beat show p s ≡ (ok tt, beat show p s)
  raise_or_beat-quiet p s h =
      ap
        (λ b.
          if b
          then (err (runtime_error (text_of show s.error_text)), s)
          else (ok tt, beat show p s))
        (ap is_raised h)

  completed-quiet :
      (p : Poll) (s s' : Collector) (b : Bool)
      → drain show p.events s ≡ s'
      → s'.error_text ≡ none
      → is_none s'.result_event ≡ b
      → completed show p s ≡ (ok (not b), beat show p s')
  unfolding completed collect
  completed-quiet p s s' b e no_error known =
      ap (λ t. result_known show (raise_or_beat show p t)) e
      ∙ ap (result_known show) (raise_or_beat-quiet p s' no_error)
      ∙ ap (λ c. (ok (not c), beat show p s')) (ap is_none ((beat-Same p s').1) ∙ known)

  is_raised-some : (text : String) → text ≢ "" → is_raised (some text) ≡ true
  is_raised-some text message = elim (Bool-cases (str_eq text "")) [
    | inl empty ↦ absurd (message ((eq_iff text "").0 empty))
    | inr written ↦ rw written
  ]

  raise_or_beat-raised :
      (p : Poll) (s : Collector) (text : String)
      → s.error_text ≡ some text
      → text ≢ ""
      → raise_or_beat show p s ≡ (err (runtime_error text), s)
  raise_or_beat-raised p s text h message =
      ap
        (λ o.
          if is_raised o then (err (runtime_error (text_of show o)), s) else (ok tt, beat show p s))
        h
      ∙ ap (λ b. if b then (err (runtime_error text), s) else (ok tt, beat show p s))
          (is_raised-some text message)

  completed-raised :
      (p : Poll) (s s' : Collector) (text : String)
      → drain show p.events s ≡ s'
      → s'.error_text ≡ some text
      → text ≢ ""
      → completed show p s ≡ (err (runtime_error text), s')
  unfolding completed collect
  completed-raised p s s' text e raised message =
      ap (λ t. result_known show (raise_or_beat show p t)) e
      ∙ ap (result_known show) (raise_or_beat-raised p s' text raised message)

  -- What the poll that sees the end leaves.
  abbrev Ends : Ending → List Json → Collector → Poll → Type 0
  Ends ending xs s p =
      ((completed show p s).0 ≡ verdict ending) × ((completed show p s).1.samples ≡ s.samples ++ xs)

  after-eof : (cs rest : List Event) → cs ++ rest ≡ eof ∷ [] → (cs ≡ []) ⊎ (cs ≡ eof ∷ [])
  after-eof [] rest h = inl refl
  after-eof (c ∷ []) rest h = inr cc
  after-eof (c ∷ d ∷ cs) rest h = cc

  -- The state behind the end.
  abbrev final : Ending → Collector → Collector
  final (done r) t = record t { result_event = some r }
  final (failed text) t = record t { failure = some (error text); error_text = some text }
  final closed t = record t { error_text = some "remote agent closed without a result" }

  handle-eof_same :
      (t : Collector)
      → (is_none t.result_event && is_none t.error_text) ≡ false
      → handle show eof t ≡ t
  handle-eof_same t h =
      ap
        (λ b.
          if b then record t { error_text = some "remote agent closed without a result" } else t)
        h

  handle-Waiting : (t : Collector) → Waiting t → handle show eof t ≡ final closed t
  handle-Waiting t (no_result, no_error) =
      ap (λ b. if b then final closed t else t)
        (and-intro (ap is_none no_result) (ap is_none no_error))

  drain-final :
      (ending : Ending) (t : Collector) (c : Event) (cs rest : List Event)
      → Waiting t
      → c ∷ cs ++ rest ≡ ending_events ending
      → drain show (c ∷ cs) t ≡ final ending t
  unfolding drain
  drain-final (done r) t c cs rest _ h =
      let first : c ≡ result r = cc in
      elim (after-eof cs rest cc) [
        | inl last ↦ rw (first, last) refl
        | inr more ↦ rw (first, more) (handle-eof_same (final (done r) t) refl)
      ]
  drain-final (failed text) t c cs rest (no_result, _) h =
      let first : c ≡ error text = cc in
      elim (after-eof cs rest cc) [
        | inl last ↦ rw (first, last) refl
        | inr more ↦
            rw (first, more)
              (handle-eof_same (final (failed text) t) (ap (λ o. is_none o && false) no_result))
      ]
  drain-final closed t c [] rest waiting h =
      let first : c ≡ eof = cc in rw first (handle-Waiting t waiting)
  drain-final closed t c (d ∷ cs) rest waiting h = cc

  completed-final :
      (ending : Ending) (p : Poll) (s t : Collector)
      → IsMessage ending
      → Waiting t
      → drain show p.events s ≡ final ending t
      → ((completed show p s).0 ≡ verdict ending) × ((completed show p s).1.samples ≡ t.samples)
  completed-final (done r) p s t message (_, no_error) e =
      let end = completed-quiet p s (final (done r) t) false e no_error refl in
      (ap (λ m. m.0) end, ap (λ m. m.1.samples) end ∙ (beat-Same p (final (done r) t)).0)
  completed-final (failed text) p s t message _ e =
      let end = completed-raised p s (final (failed text) t) text e refl message in
      (ap (λ m. m.0) end, ap (λ m. m.1.samples) end)
  completed-final closed p s t message _ e =
      let end =
        completed-raised p s (final closed t) "remote agent closed without a result" e refl
          (λ h. cc) in
      (ap (λ m. m.0) end, ap (λ m. m.1.samples) end)

  completed-Ends :
      (p : Poll) (s : Collector) (xs : List Json) (ending : Ending) (c : Event)
      (cs rest : List Event)
      → Waiting s
      → IsMessage ending
      → p.events ≡ map sample xs ++ c ∷ cs
      → c ∷ cs ++ rest ≡ ending_events ending
      → Ends ending xs s p
  completed-Ends p s xs ending c cs rest waiting message f h =
      completed-final ending p s (gather xs s) message waiting (
        ap (λ l. drain show l s) f
        ∙ drain-samples xs (c ∷ cs) s
        ∙ drain-final ending (gather xs s) c cs rest waiting h)

  drain-nil : (t : Collector) → drain show [] t ≡ t
  unfolding drain
  drain-nil t = refl

  unless_completed-verdict :
      (ending : Ending) (m : Result Bool × Collector) (again : Collector → Result Bool × Collector)
      → m.0 ≡ verdict ending
      → unless_completed show m again ≡ m
  unless_completed-verdict ending (ok true, s) again h = refl
  unless_completed-verdict ending (err e, s) again h = refl
  unless_completed-verdict (done r) (ok false, s) again h = cc
  unless_completed-verdict (failed text) (ok false, s) again h = cc
  unless_completed-verdict closed (ok false, s) again h = cc

  -- If the events of a run, spread over any number of polls at any times, are samples and then a
  -- result, an error with a text, or nothing more, and neither a result nor an error was seen before,
  -- then a caller that polls until the run is completed learns of the result, or of the error, or
  -- that there was no result; and all samples are kept, in their order.
  pub watch-verdict :
      (ps : List Poll) (s : Collector) (xs : List Json) (ending : Ending)
      → Waiting s
      → IsMessage ending
      → all_events ps ≡ trace xs ending
      → ((watch show ps s).0 ≡ verdict ending) × ((watch show ps s).1.samples ≡ s.samples ++ xs)
  unfolding watch
  watch-verdict [] s [] (done r) waiting message h = cc
  watch-verdict [] s [] (failed r) waiting message h = cc
  watch-verdict [] s [] closed waiting message h = cc
  watch-verdict [] s (x ∷ xs) ending waiting message h = cc
  watch-verdict (p ∷ ps) s xs ending waiting message h =
      elim (split_batch p.events (all_events ps) (ending_events ending) xs h) [
        | inl (ys, zs, e, f, g) ↦
            let t = gather ys s in
            let drained : drain show p.events s ≡ t =
              ap (λ l. drain show l s) (f ∙ sym (append-nil (map sample ys)))
              ∙ drain-samples ys [] s
              ∙ drain-nil t in
            let going = completed-quiet p s t true drained (waiting.1) (ap is_none (waiting.0)) in
            let (kept, no_result, no_error) = beat-Same p t in
            let (said, all) =
              watch-verdict ps (beat show p t) zs ending
                (no_result ∙ waiting.0, no_error ∙ waiting.1) message g in
            let step : watch show (p ∷ ps) s ≡ watch show ps (beat show p t) =
              ap (λ m. unless_completed show m (watch show ps)) going in
            (
              ap (λ m. m.0) step ∙ said,
              ap (λ m. m.1.samples) step
                  ∙ all
                  ∙ ap (λ l. l ++ zs) kept
                  ∙ append_assoc s.samples ys zs
                  ∙ ap (λ l. s.samples ++ l) (sym e),
            )
        | inr (c, cs, f, g) ↦
            let (said, kept) =
              completed-Ends p s xs ending c cs (all_events ps) waiting message f g in
            let step = unless_completed-verdict ending (completed show p s) (watch show ps) said in
            (ap (λ m. m.0) step ∙ said, ap (λ m. m.1.samples) step ∙ kept)
      ]
