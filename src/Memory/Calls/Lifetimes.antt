-- ===== src/Memory/Calls/Lifetimes.antt =====
-- What calls do to the runs and the idempotency keys that are there.
use dayu_water_agent.Prelude.{◌≤◌, String, ◌≡◌, refl, ◌∙◌, true, some, none, arith}
use dayu_water_agent.Dict.{get, put}
use dayu_water_agent.Dict.Laws.{get-put-keeps}
use dayu_water_agent.Runtime.State.{RunStatus, is_active, is_terminal, AgentRun}
use dayu_water_agent.Runtime.Transitions.{History, here, next, active-not-terminal}
use dayu_water_agent.Memory.Store.{MemoryStore}

-- `r'` is `r` at a later time: the same request, moved along the state machine, and `r` itself if
-- that was finished.
pub record Later (r r' : AgentRun) : Type 0 where
  pub id : r'.id ≡ r.id
  pub session : r'.session_id ≡ r.session_id
  pub key : r'.idempotency_key ≡ r.idempotency_key
  pub hash : r'.request_hash ≡ r.request_hash
  pub history : History r.status r'.status
  pub attempts : r.attempt_count ≤ r'.attempt_count
  pub final : is_terminal r.status ≡ true → r' ≡ r

History-append : {a b c : RunStatus} → History a b → History b c → History a c
History-append h here = h
History-append h (next k t) = next (History-append h k) t

pub Later-refl : (r : AgentRun) → Later r r
Later-refl r = record {
  id = refl;
  session = refl;
  key = refl;
  hash = refl;
  history = here;
  attempts = omega arith;
  final = λ _. refl;
}

pub Later-trans : (a b c : AgentRun) → Later a b → Later b c → Later a c
Later-trans a b c p q = record {
  id = q.id ∙ p.id;
  session = q.session ∙ p.session;
  key = q.key ∙ p.key;
  hash = q.hash ∙ p.hash;
  history = History-append p.history q.history;
  attempts = omega (arith, p.attempts, q.attempts);
  final = λ t. let same = p.final t in q.final (rw same t) ∙ same;
}

-- A change of an active run.
pub active-Later :
    (r r' : AgentRun)
    → r'.id ≡ r.id
    → r'.session_id ≡ r.session_id
    → r'.idempotency_key ≡ r.idempotency_key
    → r'.request_hash ≡ r.request_hash
    → History r.status r'.status
    → r.attempt_count ≤ r'.attempt_count
    → is_active r.status ≡ true
    → Later r r'
active-Later r r' i x k h history more a = record {
  id = i;
  session = x;
  key = k;
  hash = h;
  history = history;
  attempts = more;
  final = λ t. absurd (ground (arith, active-not-terminal r.status));
}

-- Every run lives on, and no idempotency key is lost or bound anew.
pub record Kept (s t : MemoryStore) : Type 0 where
  pub runs :
      (k : String) (r : AgentRun)
      → get s.runs k ≡ some r
      → (r' : AgentRun) × (get t.runs k ≡ some r') × Later r r'
  pub keys : (key k : String) → get s.idempotency key ≡ some k → get t.idempotency key ≡ some k

pub Kept-trans : (s t u : MemoryStore) → Kept s t → Kept t u → Kept s u
Kept-trans s t u p q = record {
  runs = λ k r e.
      let (a, ha, la) = p.runs k r e in
      let (b, hb, lb) = q.runs k a ha in (b, hb, Later-trans r a b la lb);
  keys = λ key k e. q.keys key k (p.keys key k e);
}

pub same-Kept : (s t : MemoryStore) → t.runs ≡ s.runs → t.idempotency ≡ s.idempotency → Kept s t
same-Kept s t e f = record { runs = λ k r h. (r, rw e h, Later-refl r); keys = λ key k h. rw f h }

pub put-Kept :
    (s t : MemoryStore) (id : String) (r r' : AgentRun)
    → t.runs ≡ put s.runs id r'
    → t.idempotency ≡ s.idempotency
    → get s.runs id ≡ some r
    → Later r r'
    → Kept s t
put-Kept s t id r r' e f h l = record {
  runs = λ k x hx. rw e (
      get-put-keeps (λ y. Later x y) s.runs id k r' x hx (Later-refl x)
        (λ g. let same : r ≡ x = ground arith in rw same at l));
  keys = λ key k hk. rw f hk;
}

-- A run is entered under a fresh id, and bound to a key that is free.
pub enter-Kept :
    (s t : MemoryStore) (id : String) (r : AgentRun)
    → t.runs ≡ put s.runs id r
    → get s.runs id ≡ none
    → ((key k : String) → get s.idempotency key ≡ some k → get t.idempotency key ≡ some k)
    → Kept s t
enter-Kept s t id r e n keys = record {
  runs = λ k x hx. rw e (
      get-put-keeps (λ y. Later x y) s.runs id k r x hx (Later-refl x)
        (λ g. absurd (ground arith)));
  keys = keys;
}
