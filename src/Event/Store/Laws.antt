-- ===== src/Event/Store/Laws.antt =====
-- The event store only grows, in the order of its sequence numbers.
use pasi_engineering_workspa.Prelude.{
  ℕ, zero, suc, Bool-cases, pos, ◌+◌, ◌-◌, ◌≤◌, ◌<◌, ◌≡◌, refl, ap, ◌∙◌, Bool, true, false, ◌||◌,
  String, str_eq, eq_iff, ok, raise_if-false, ltb, Option, none, some, Option-cases, inl, inr, List,
  [], ◌∷◌, ◌++◌, keep, length, All, take, keep-append, take-append, All-take, All-keep, All-append,
  arith, if◌then◌else◌,
}
use pasi_engineering_workspa.Json.{Fields}
use pasi_engineering_workspa.Event.{DurableEvent, make_event}
use pasi_engineering_workspa.Event.Laws.{make_event_again}
use pasi_engineering_workspa.Event.Store.{
  EventLog, bad_event_limit, find_event, wanted_event, load_event, append, found_event, get_event,
  load_events, list_events,
}

-- The event with the next sequence number
abbrev pub numbered : DurableEvent → EventLog → DurableEvent
numbered e log = record e { sequence = some (pos (log.last_sequence + 1)) }

-- Each sequence number is above the one in front, from `low` to `high`.
unfoldable pub Numbered : ℕ → List DurableEvent → ℕ → Type 0
Numbered low [] high = low ≤ high
Numbered low (e ∷ rows) high =
    (n : ℕ) × (e.sequence ≡ some (pos n)) × (low < n) × Numbered n rows high

Numbered-append :
    (low : ℕ) (rows : List DurableEvent) (high : ℕ) (e : DurableEvent)
    → e.sequence ≡ some (pos (high + 1))
    → Numbered low rows high
    → Numbered low (rows ++ (e ∷ [])) (high + 1)
unfolding Numbered
Numbered-append low [] high e h n = (high + 1, h, omega arith, omega arith)
Numbered-append low (r ∷ rows) high e h (n, s, l, rest) =
    (n, s, l, Numbered-append n rows high e h rest)

lower_start :
    (low low' : ℕ) (rows : List DurableEvent) (high : ℕ)
    → low' ≤ low
    → Numbered low rows high
    → Numbered low' rows high
unfolding Numbered
lower_start low low' [] high h n = omega (arith, h, n)
lower_start low low' (r ∷ rows) high h (n, s, l, rest) = (n, s, omega (arith, h, l), rest)

start_below_end :
    (low : ℕ) (rows : List DurableEvent) (high : ℕ) → Numbered low rows high → low ≤ high
unfolding Numbered
start_below_end low [] high h = h
start_below_end low (r ∷ rows) high (n, s, l, rest) =
    omega (arith, l, start_below_end n rows high rest)

Numbered-keep :
    (p : DurableEvent → Bool) (low : ℕ) (rows : List DurableEvent) (high : ℕ)
    → Numbered low rows high
    → Numbered low (keep p rows) high
unfolding Numbered keep
Numbered-keep p low [] high h = h
Numbered-keep p low (r ∷ rows) high (n, s, l, rest) =
    let kept = Numbered-keep p n rows high rest in
    elim (Bool-cases (p r)) [
      | inl e ↦ rw e (n, s, l, kept)
      | inr e ↦ rw e (lower_start n low (keep p rows) high (omega (arith, l)) kept)
    ]

Numbered-take :
    (k low : ℕ) (rows : List DurableEvent) (high : ℕ)
    → Numbered low rows high
    → Numbered low (take k rows) high
unfolding Numbered
Numbered-take zero low rows high h = start_below_end low rows high h
Numbered-take (suc k) low [] high h = h
Numbered-take (suc k) low (r ∷ rows) high (n, s, l, rest) =
    (n, s, l, Numbered-take k n rows high rest)

find_event-append :
    (id : String) (rows : List DurableEvent) (e : DurableEvent)
    → find_event e.event_id rows ≡ none
    → find_event id (rows ++ (e ∷ []))
      ≡ (if str_eq e.event_id id then some e else find_event id rows)
unfolding find_event
find_event-append id [] e h = refl
find_event-append id (r ∷ rows) e h = ground (
  arith,
  eq_iff r.event_id e.event_id,
  eq_iff r.event_id id,
  eq_iff e.event_id id,
  find_event-append id rows e,
)

ap_if {ℓ κ} :
    {A : Type ℓ} {B : Type κ} (f : A → B) (t : Bool) (x y : A)
    → f (if t then x else y) ≡ (if t then f x else f y)
ap_if f true x y = refl
ap_if f false x y = refl

module _ (dumps : Fields → String) (sha256 : String → String) where
  -- What the store guarantees of its rows: each is a valid event, and they are numbered upwards.
  pub record IsLog (log : EventLog) : Type 0 where
    pub valid : All (λ row. make_event dumps sha256 row ≡ ok row) log.rows
    pub ordered : Numbered 0 log.rows log.last_sequence

  -- `append` of a valid event keeps the log well formed, also where it refuses the event.
  pub append-IsLog :
      (e : DurableEvent) (log : EventLog)
      → make_event dumps sha256 e ≡ ok e
      → IsLog log
      → IsLog (append dumps sha256 e log).0
  unfolding append
  append-IsLog e log v l = elim (Option-cases (find_event e.event_id log.rows)) [
    | inr (found, h) ↦ rw (append, h) l
    | inl h ↦
        rw (append, h)
          (record {
            valid =
                All-append _ log.rows _ l.valid
                  (make_event_again dumps sha256 e log.last_sequence v, tt);
            ordered = Numbered-append 0 log.rows log.last_sequence (numbered e log) refl l.ordered;
          })
  ]

  loaded :
      (e : DurableEvent) (log : EventLog)
      → make_event dumps sha256 e ≡ ok e
      → load_event dumps sha256 (numbered e log) ≡ ok (numbered e log)
  unfolding load_event
  loaded e log v = rw (make_event_again dumps sha256 e log.last_sequence v) refl

  -- A valid event of a new id is appended with the next sequence number and returned so; `get` then
  -- returns it under its id, and under every other id what it returned before.
  pub get_event-append :
      (e : DurableEvent) (log : EventLog) (id : String)
      → make_event dumps sha256 e ≡ ok e
      → find_event e.event_id log.rows ≡ none
      → ((append dumps sha256 e log).1 ≡ ok (numbered e log))
        × (get_event dumps sha256 id (append dumps sha256 e log).0
            ≡ (if str_eq e.event_id id then ok (numbered e log) else get_event dumps sha256 id log))
  unfolding append get_event
  get_event-append e log id v h = (
    rw (append, h) (loaded e log v),
    rw (append, h)
        (ap (found_event dumps sha256) (find_event-append id log.rows (numbered e log) h)
          ∙ ap_if (found_event dumps sha256) (str_eq e.event_id id) (some (numbered e log))
              (find_event id log.rows)
          ∙ ap
              (λ r.
                if str_eq e.event_id id
                then r
                else found_event dumps sha256 (find_event id log.rows))
              (unfold found_event in loaded e log v)),
  )

  pub append-eq-ok :
      (e : DurableEvent) (log : EventLog) {row : DurableEvent}
      → (append dumps sha256 e log).1 ≡ ok row
      → find_event e.event_id log.rows ≡ none
  unfolding append
  append-eq-ok e log h = elim (Option-cases (find_event e.event_id log.rows)) [
    | inl fresh ↦ fresh
    | inr (found, k) ↦ absurd (cc (rw (append, k) at h))
  ]

  pub rows-append :
      (e : DurableEvent) (log : EventLog)
      → find_event e.event_id log.rows ≡ none
      → (append dumps sha256 e log).0.rows ≡ log.rows ++ (numbered e log ∷ [])
  unfolding append
  rows-append e log h = rw (append, h) refl

  load_events-eq-ok :
      (rows : List DurableEvent)
      → All (λ row. make_event dumps sha256 row ≡ ok row) rows
      → load_events dumps sha256 rows ≡ ok rows
  unfolding load_events
  load_events-eq-ok [] h = refl
  load_events-eq-ok (row ∷ rows) (h, hs) = rw (h, load_events-eq-ok rows hs) refl

  -- On a well-formed log `list` reads every wanted event, up to the limit.
  list_events_lem :
      (log : EventLog) (operation correlation : Option String) (limit : ℕ)
      → All (λ row. make_event dumps sha256 row ≡ ok row) log.rows
      → (ltb limit 1 || ltb 10000 limit) ≡ false
      → list_events dumps sha256 operation correlation limit log
        ≡ ok (take limit (keep (wanted_event operation correlation) log.rows))
  unfolding list_events
  list_events_lem log operation correlation limit valid h =
      raise_if-false _ bad_event_limit _ h
      ∙ load_events-eq-ok _
          (All-take _ limit _ (All-keep _ (wanted_event operation correlation) log.rows valid))

  -- What `list` returns: of the rows that are wanted the first ones, up to the limit, with rising
  -- sequence numbers.
  pub record IsListed (operation correlation : Option String) (limit : ℕ) (log : EventLog)
      (es : List DurableEvent) : Type 0 where
    pub listed : list_events dumps sha256 operation correlation limit log ≡ ok es
    pub wanted : es ≡ take limit (keep (wanted_event operation correlation) log.rows)
    pub rising : Numbered 0 es log.last_sequence

  -- Given a well-formed log, a valid event of a new id and a limit of 1 to 10000: `list` succeeds on the
  -- log and returns the wanted events, the oldest ones up to the limit, in the order of the sequence.
  -- After the event is appended, `list` returns the same events and, where the limit leaves room and
  -- the event is wanted, the event behind them.
  pub list_events-append :
      (e : DurableEvent) (log : EventLog) (operation correlation : Option String) (limit : ℕ)
      → make_event dumps sha256 e ≡ ok e
      → find_event e.event_id log.rows ≡ none
      → IsLog log
      → (ltb limit 1 || ltb 10000 limit) ≡ false
      → (es : List DurableEvent) × IsListed operation correlation limit log es
        × (list_events dumps sha256 operation correlation limit (append dumps sha256 e log).0
            ≡ ok (
                es
                ++ take
                    (limit - length es)
                    (if wanted_event operation correlation e then numbered e log ∷ [] else [])))
  unfolding keep wanted_event
  list_events-append e log operation correlation limit v h l fine =
      let wanted = wanted_event operation correlation in
      let es = take limit (keep wanted log.rows) in
      let after = append-IsLog e log v l in
      (
        es,
        record {
          listed = list_events_lem log operation correlation limit l.valid fine;
          wanted = refl;
          rising =
              Numbered-take limit 0 _ log.last_sequence
                (Numbered-keep wanted 0 log.rows log.last_sequence l.ordered);
        },
        list_events_lem (append dumps sha256 e log).0 operation correlation limit after.valid fine
            ∙ ap ok (
                ap (λ rows. take limit (keep wanted rows)) (rows-append e log h)
                ∙ ap (take limit) (keep-append wanted log.rows (numbered e log ∷ []))
                ∙ take-append limit (keep wanted log.rows) (keep wanted (numbered e log ∷ []))),
      )
