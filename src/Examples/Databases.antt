-- ===== src/Examples/Databases.antt =====
-- A small database in memory, which keeps what the database store relies on.
use mathlib.Core.List.{reverse}
use dayu_water_agent.Prelude.{
  ltb, length, ℕ, ◌≤◌, ◌≡◌, refl, sym, subst, ◌∙◌, ap, arith, Bool-cases, eq_iff, String, Bool,
  true, false, not, ◌&&◌, Option, none, some, List, [], ◌∷◌, ◌==◌, if◌then◌else◌, ◌⊎◌, inl, inr,
  ◌↔◌, leb, keep_if,
}
use dayu_water_agent.Json.{object, end_fields}
use dayu_water_agent.Runtime.Result.{no_usage}
use dayu_water_agent.Database.Models.{
  AgentSessionModel, AgentRunModel, AgentMessageModel, AgentStreamEventModel,
}
use dayu_water_agent.Database.Engine.{
  Answer, rows, integrity_error, Database, IsDatabase, is_active_value,
}

pub record Tables : Type 0 where
  pub sessions : List AgentSessionModel
  pub runs : List AgentRunModel
  pub messages : List AgentMessageModel
  pub events : List AgentStreamEventModel

abbrev pub no_tables : Tables
no_tables = record { sessions = []; runs = []; messages = []; events = [] }

-- The row that a test accepts first.
unfoldable pub find_if : {A : Type 0} → (A → Bool) → List A → Option A
find_if p [] = none
find_if p (x ∷ xs) = if p x then some x else find_if p xs

abbrev pub Stands : {A : Type 0} → A → List A → Type 0
Stands x [] = ⊥
Stands x (y ∷ ys) = Stands x ys ⊎ (x ≡ y)

-- The greatest number of the rows that a test accepts, or 0.
unfoldable pub greatest : {A : Type 0} → (A → Bool) → (A → ℕ) → List A → ℕ
greatest p number [] = 0
greatest p number (x ∷ xs) =
    let rest = greatest p number xs in
    if p x then (if leb rest (number x) then number x else rest) else rest

abbrev pub named : String → AgentRunModel → Bool
named k r = r.id == k

abbrev has_key : String → Option String → Bool
has_key key none = false
has_key key (some other) = other == key

abbrev keep_key : String → Option AgentRunModel → Option AgentRunModel → Option AgentRunModel
keep_key key none rest = rest
keep_key key (some r) rest = if has_key key r.idempotency_key then some r else rest

-- The row of a key among those that a primary key finds.
unfoldable pub by_key : String → List AgentRunModel → List AgentRunModel → Option AgentRunModel
unfolding find_if
by_key key all [] = none
by_key key all (r ∷ rs) = keep_key key (find_if (named r.id) all) (by_key key all rs)

abbrev pub active_in : String → AgentRunModel → Bool
active_in id r = is_active_value r.status && r.session_id == id

-- A run is inserted unless its session has an active one.
abbrev entered_unless : AgentRunModel → Tables → Option AgentRunModel → Answer Tables
entered_unless r d none = rows (record d { runs = r ∷ d.runs })
entered_unless r d (some _) = integrity_error

unfoldable pub entered : AgentRunModel → Tables → Answer Tables
unfolding find_if
entered r d = entered_unless r d (find_if (active_in r.session_id) d.runs)

abbrev updated : AgentRunModel → Tables → Tables
updated r d = record d { runs = r ∷ keep_if (λ y. not (y.id == r.id)) d.runs }

abbrev has_finished : Option AgentRunModel → Bool
has_finished none = false
has_finished (some r) = not (is_active_value r.status)

unfoldable pub expired : ℕ → Tables → AgentStreamEventModel → Bool
unfolding find_if
expired before d e = ltb e.created_at before && has_finished (find_if (named e.run_id) d.runs)

abbrev pub tables : Database
tables = record {
  Db = Tables;
  session = λ d k. find_if (λ x. x.id == k) d.sessions;
  run = λ d k. find_if (named k) d.runs;
  HasEvent = λ d e. Stands e d.events;
  HasMessage = λ d m. Stands m d.messages;
  select_session = λ k d. rows (find_if (λ x. x.id == k) d.sessions);
  select_run = λ k d. rows (find_if (named k) d.runs);
  select_run_by_key = λ key d. rows (by_key key d.runs d.runs);
  select_active_run = λ id d. rows (find_if (active_in id) d.runs);
  select_active_runs = λ same worker d. rows (
      keep_if
        (λ r.
          is_active_value r.status
          && (if same
              then r.worker_instance_id == worker
              else not (r.worker_instance_id == worker)))
        d.runs);
  select_messages =
      λ id d. rows (reverse (keep_if (λ m. m.session_id == id && m.committed) d.messages));
  select_events_after =
      λ id n d. rows (reverse (keep_if (λ e. e.run_id == id && not (leb e.sequence n)) d.events));
  max_message_sequence =
      λ id d. rows (greatest (λ m. m.session_id == id) (λ m. m.sequence) d.messages);
  max_event_sequence = λ id d. rows (greatest (λ e. e.run_id == id) (λ e. e.sequence) d.events);
  insert_session = λ x d. rows (record d { sessions = x ∷ d.sessions });
  insert_run = entered;
  insert_message = λ m d. rows (record d { messages = m ∷ d.messages });
  insert_event = λ e d. rows (record d { events = e ∷ d.events });
  update_session =
      λ x d. rows (record d { sessions = x ∷ keep_if (λ y. not (y.id == x.id)) d.sessions });
  update_run = λ r d. rows (updated r d);
  delete_messages =
      λ id d. rows (record d { messages = keep_if (λ m. not (m.session_id == id)) d.messages });
  delete_expired_events = λ before d. rows (
    length (keep_if (expired before d) d.events),
    record d { events = keep_if (λ e. not (expired before d e)) d.events },
  );
  commit = λ d. rows d;
  rollback = λ d d'. d;
  validate_usage = λ _. some no_usage;
  dump_usage = λ _. object end_fields;
}

rows_inj : {A : Type 0} (a b : A) → rows a ≡ rows b → a ≡ b
rows_inj a b h = cc

find_if-holds :
    {A : Type 0} (p : A → Bool) (xs : List A) (x : A) → find_if p xs ≡ some x → p x ≡ true
unfolding find_if
find_if-holds p [] x h = ground (arith, h)
find_if-holds p (y ∷ ys) x h = elim (Bool-cases (p y)) [
  | inl e ↦ ground (arith, h, e)
  | inr e ↦ find_if-holds p ys x (ground (arith, h, e))
]

-- What no row satisfies, the row that another test finds does not.
find_if-none :
    {A : Type 0} (p q : A → Bool) (xs : List A) (x : A)
    → find_if p xs ≡ none
    → find_if q xs ≡ some x
    → p x ≡ false
unfolding find_if
find_if-none p q [] x h g = ground (arith, g)
find_if-none p q (y ∷ ys) x h g = elim (Bool-cases (p y)) [
  | inl e ↦ ground (arith, h, e)
  | inr e ↦ elim (Bool-cases (q y)) [
    | inl f ↦ ground (arith, g, f, e)
    | inr f ↦ find_if-none p q ys x (ground (arith, h, e)) (ground (arith, g, f))
  ]
]

greatest-Stands :
    {A : Type 0} (p : A → Bool) (number : A → ℕ) (xs : List A) (x : A)
    → Stands x xs
    → p x ≡ true
    → number x ≤ greatest p number xs
unfolding greatest
greatest-Stands p number [] x h e = absurd h
greatest-Stands p number (y ∷ ys) x (inl h) e =
    let rest = greatest-Stands p number ys x h e in ground (arith, rest)
greatest-Stands p number (y ∷ ys) x (inr h) e = rw h (ground (arith, h, e))

has_key-same : (key : String) (o : Option String) → has_key key o ≡ true → o ≡ some key
has_key-same key none h = cc
has_key-same key (some other) h = ap some ((eq_iff other key).0 h)

keep_key-holds :
    (key k : String) (all : List AgentRunModel) (o rest : Option AgentRunModel) (r : AgentRunModel)
    → find_if (named k) all ≡ o
    → (rest ≡ some r → (find_if (named r.id) all ≡ some r) × (r.idempotency_key ≡ some key))
    → keep_key key o rest ≡ some r
    → (find_if (named r.id) all ≡ some r) × (r.idempotency_key ≡ some key)
keep_key-holds key k all none rest r found next h = next h
keep_key-holds key k all (some x) rest r found next h =
    elim (Bool-cases (has_key key x.idempotency_key)) [
      | inl y ↦
          let same : x ≡ r = ground (arith, h, y) in
          let at : find_if (named x.id) all ≡ some x =
            ap (λ z. find_if (named z) all)
              ((eq_iff x.id k).0 (find_if-holds (named k) all x found))
            ∙ found in
          (
            subst (λ z. find_if (named z.id) all ≡ some z) same at,
            subst (λ z. z.idempotency_key ≡ some key) same (has_key-same key x.idempotency_key y),
          )
      | inr n ↦ next (ground (arith, h, n))
    ]

by_key-holds :
    (key : String) (all rs : List AgentRunModel) (r : AgentRunModel)
    → by_key key all rs ≡ some r
    → (find_if (named r.id) all ≡ some r) × (r.idempotency_key ≡ some key)
unfolding by_key
by_key-holds key all [] r h = cc
by_key-holds key all (x ∷ rs) r h =
    keep_key-holds key x.id all (find_if (named x.id) all) (by_key key all rs) r refl
      (by_key-holds key all rs r) h

find_if-without :
    (rs : List AgentRunModel) (id k : String)
    → (id == k) ≡ false
    → find_if (named k) (keep_if (λ y. not (y.id == id)) rs) ≡ find_if (named k) rs
unfolding find_if keep_if
find_if-without [] id k h = refl
find_if-without (r ∷ rs) id k h =
    let rest = find_if-without rs id k h in ground (arith, rest, h, eq_iff r.id id, eq_iff r.id k)

and_false : (a b : Bool) → a && b ≡ false → b ≡ true → a ≡ false
and_false false b h e = refl
and_false true true h e = h
and_false true false h e = sym e

active_value :
    (r : AgentRunModel) (id : String)
    → active_in id r ≡ false
    → r.session_id ≡ id
    → is_active_value r.status ≡ false
active_value r id h e =
    and_false (is_active_value r.status) (r.session_id == id) h ((eq_iff r.session_id id).1 e)

moved : {A : Type 0} (P : A → Type 0) (a b : A) → rows a ≡ rows b → P b ↔ P a
moved P a b h = (subst P (sym (rows_inj a b h)), subst P (rows_inj a b h))

found_row :
    (d d' : Tables) (k : String)
    → rows d ≡ rows d'
    → find_if (named k) d'.runs ≡ find_if (named k) d.runs
found_row d d' k h = ap (λ z. find_if (named k) z.runs) (sym (rows_inj d d' h))

entered_unless-run :
    (r : AgentRunModel) (d d' : Tables) (k : String) (o : Option AgentRunModel)
    → entered_unless r d o ≡ rows d'
    → find_if (named k) d'.runs ≡ (if r.id == k then some r else find_if (named k) d.runs)
unfolding find_if
entered_unless-run r d d' k none h = found_row (record d { runs = r ∷ d.runs }) d' k h
entered_unless-run r d d' k (some x) h = cc

entered-run :
    (r : AgentRunModel) (d d' : Tables) (k : String)
    → entered r d ≡ rows d'
    → find_if (named k) d'.runs ≡ (if r.id == k then some r else find_if (named k) d.runs)
unfolding entered
entered-run r d d' k h = entered_unless-run r d d' k (find_if (active_in r.session_id) d.runs) h

updated-run :
    (r : AgentRunModel) (d : Tables) (k : String)
    → find_if (named k) (updated r d).runs
      ≡ (if r.id == k then some r else find_if (named k) d.runs)
unfolding find_if
updated-run r d k = elim (Bool-cases (r.id == k)) [
  | inl y ↦ rw y refl
  | inr n ↦ rw (n, find_if-without d.runs r.id k n) refl
]

pub tables-IsDatabase : IsDatabase tables
tables-IsDatabase = record {
  select_run_lem = λ id d r h. sym (rows_inj (find_if (named id) d.runs) r h);
  run_id_lem = λ d k r h. (eq_iff r.id k).0 (find_if-holds (named k) d.runs r h);
  select_run_by_key_lem = λ key d r h.
      by_key-holds key d.runs d.runs r (rows_inj (by_key key d.runs d.runs) (some r) h);
  select_active_run_lem = λ id k d r h there same.
      active_value r id
        (find_if-none (active_in id) (named k) d.runs r
          (rows_inj (find_if (active_in id) d.runs) none h) there)
        same;
  max_event_sequence_lem = λ id d n e h there same.
      subst (λ z. e.sequence ≤ z)
        (rows_inj (greatest (λ x. x.run_id == id) (λ x. x.sequence) d.events) n h)
        (greatest-Stands (λ x. x.run_id == id) (λ x. x.sequence) d.events e there
          ((eq_iff e.run_id id).1 same));
  max_message_sequence_lem = λ id d n m h there same.
      subst (λ z. m.sequence ≤ z)
        (rows_inj (greatest (λ x. x.session_id == id) (λ x. x.sequence) d.messages) n h)
        (greatest-Stands (λ x. x.session_id == id) (λ x. x.sequence) d.messages m there
          ((eq_iff m.session_id id).1 same));
  update_run_lem = λ r d d' k h. found_row (updated r d) d' k h ∙ updated-run r d k;
  update_run_events = λ r d d' e h. moved (λ z. Stands e z.events) (updated r d) d' h;
  update_run_messages = λ r d d' m h. moved (λ z. Stands m z.messages) (updated r d) d' h;
  insert_event_messages =
      λ e d d' m h. moved (λ z. Stands m z.messages) (record d { events = e ∷ d.events }) d' h;
  insert_run_lem = entered-run;
  insert_session_runs = λ x d d' k h. found_row (record d { sessions = x ∷ d.sessions }) d' k h;
  insert_event_runs = λ e d d' k h. found_row (record d { events = e ∷ d.events }) d' k h;
  insert_event_lem =
      λ e f d d' h. moved (λ z. Stands f z.events) (record d { events = e ∷ d.events }) d' h;
  insert_message_lem =
      λ m n d d' h. moved (λ z. Stands n z.messages) (record d { messages = m ∷ d.messages }) d' h;
  update_session_messages = λ x d d' m h.
      moved (λ z. Stands m z.messages)
        (record d { sessions = x ∷ keep_if (λ y. not (y.id == x.id)) d.sessions }) d' h;
  commit_lem = λ d d' h. sym (rows_inj d d' h);
  rollback_lem = λ d d'. refl;
  validate_empty = refl;
}
