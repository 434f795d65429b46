-- ===== src/Worker/NodeClient.antt =====
-- panel/worker/app/node_client.py: the requests to a node's agent. A request is a computation on the
-- state of the world that answers or raises; HTTP and the agent's answers are outside.
use vpn_management_panel.Prelude.{
  ℕ, String, ◌≡◌, refl, sym, ◌∙◌, ◌⊎◌, inl, inr, Option, List, [], ◌∷◌, ◌<>◌, rstrip_char,
}
use vpn_management_panel.Panel.NodeSnapshot.{Fields}

pub data Exception : Type 0 where
  -- httpx.HTTPStatusError: the code of the response, its request's path, its text, and the message
  http_status_error : (code : ℕ) (path body message : String) → Exception
  -- any other
  error : (message : String) → Exception

-- `str(exc)`
abbrev pub message_of : Exception → String
message_of (http_status_error code path body message) = message
message_of (error message) = message

-- An answer or an exception, and the world after it: an exception does not roll it back.
pub data Outcome (S A : Type 0) : Type 0 where
  done : A → S → Outcome S A
  raised : Exception → S → Outcome S A

abbrev pub Io : Type 0 → Type 0 → Type 0
Io S A = S → Outcome S A

module _ {S : Type 0} where
  infixl 5 ◌>>=◌ ◌>>◌
  abbrev pub ◌>>=◌ : {A B : Type 0} → Io S A → (A → Io S B) → Io S B
  ◌>>=◌ m f s = elim (m s) [ done a s' ↦ f a s' | raised e s' ↦ raised e s' ]

  abbrev pub ◌>>◌ : {B : Type 0} → Io S (Unit {0}) → Io S B → Io S B
  m >> k = m >>= λ _. k

  abbrev pub pure : {A : Type 0} → A → Io S A
  pure a s = done a s

  abbrev pub raise : {A : Type 0} → Exception → Io S A
  raise e s = raised e s

  -- `try: m except Exception as exc: h(exc)`
  abbrev pub catch : {A : Type 0} → Io S A → (Exception → Io S A) → Io S A
  catch m h s = elim (m s) [ done a s' ↦ done a s' | raised e s' ↦ h e s' ]

  -- To split on an answer and keep the equation.
  pub Outcome-cases :
      {A : Type 0} (o : Outcome S A)
      → ((e : Exception) × (s' : S) × (o ≡ raised e s')) ⊎ ((a : A) × (s' : S) × (o ≡ done a s'))
  Outcome-cases (raised e s') = inl (e, s', refl)
  Outcome-cases (done a s') = inr (a, s', refl)

  -- An answer is passed on with its world.
  pub >>=-done :
      {A B : Type 0} (m : Io S A) (k : A → Io S B) {s s' : S} {a : A}
      → m s ≡ done a s'
      → (m >>= k) s ≡ k a s'
  >>=-done m k e = rw (◌>>=◌, e) refl

  -- An exception ends the computation.
  pub >>=-raised :
      {A B : Type 0} (m : Io S A) (k : A → Io S B) {s s' : S} {e : Exception}
      → m s ≡ raised e s'
      → (m >>= k) s ≡ raised e s'
  >>=-raised m k e = rw (◌>>=◌, e) refl

  pub catch-done :
      {A : Type 0} (m : Io S A) (h : Exception → Io S A) {s s' : S} {a : A}
      → m s ≡ done a s'
      → catch m h s ≡ done a s'
  catch-done m h e = rw (catch, e) refl

  pub catch-raised :
      {A : Type 0} (m : Io S A) (h : Exception → Io S A) {s s' : S} {e : Exception}
      → m s ≡ raised e s'
      → catch m h s ≡ h e s'
  catch-raised m h e = rw (catch, e) refl

  -- An exception is the same whatever the answer's type.
  pub raised-as :
      {A B : Type 0} {o : Outcome S A} {b : Outcome S B} {e e' : Exception} {s s' : S}
      → o ≡ raised e s
      → b ≡ raised e s
      → b ≡ raised e' s'
      → o ≡ raised e' s'
  raised-as p q r = let both = sym q ∙ r in p ∙ cc

  -- With a handler that answers, a computation answers.
  pub catch-total :
      {A : Type 0} (m : Io S A) (f : Exception → A) (s : S)
      → (a : A) × (s' : S) × (catch m (λ e. pure (f e)) s ≡ done a s')
  catch-total m f s = elim (Outcome-cases (m s)) [
    | inl (e, s', q) ↦ (f e, s', catch-raised m (λ e. pure (f e)) q)
    | inr (a, s', q) ↦ (a, s', catch-done m (λ e. pure (f e)) q)
  ]

  pub done-world : {A : Type 0} {a b : A} {s s' : S} → done a s ≡ done b s' → s ≡ s'
  done-world e = cc

  pub done-answer : {A : Type 0} {a b : A} {s s' : S} → done a s ≡ done b s' → a ≡ b
  done-answer e = cc

  -- A computation that answered has answered at each step.
  pub >>=-inv :
      {A B : Type 0} (m : Io S A) (k : A → Io S B) {s s'' : S} {b : B}
      → (m >>= k) s ≡ done b s''
      → (a : A) × (s' : S) × (m s ≡ done a s') × (k a s' ≡ done b s'')
  >>=-inv m k {s} p = elim (Outcome-cases (m s)) [
    | inl (e, s', q) ↦ cc
    | inr (a, s', q) ↦ (a, s', q, sym (>>=-done m k q) ∙ p)
  ]

pub record Connection : Type 0 where
  pub endpoint : String
  pub token : String

-- `{'public_key', 'allowed_ip', 'psk_key', 'name'}`
pub data PeerName : Type 0 where
  user_name : String → PeerName
  user_id : ℕ → PeerName

pub record PeerConfig : Type 0 where
  pub public_key : String
  pub allowed_ip : String
  pub psk_key : String
  pub name : PeerName

-- A peer of the answer to GET /status.
pub record CurrentPeer : Type 0 where
  pub public_key : Option String
  pub allowed_ips : List String
  pub psk_key : Option String

pub record AgentStatus : Type 0 where
  pub interface : Fields
  pub endpoint : Option String
  pub peers : List CurrentPeer

-- A peer of the answer to GET /dump.
pub record DumpPeer : Type 0 where
  pub public_key : Option String
  pub status : Option String
  pub endpoint : Option String
  pub rx_bytes : Option ℕ
  pub tx_bytes : Option ℕ
  pub last_handshake : Option ℕ

pub record Dump : Type 0 where
  pub interface : Fields
  pub peers : List DumpPeer

-- The agent of a node, as the answers to requests.
pub record NodeAgent (S : Type 0) : Type 0 where
  pub get_health : Connection → Io S (Unit {0})
  pub get_status : Connection → Io S AgentStatus
  pub get_dump : Connection → Io S Dump
  pub put_interface : Connection → Fields → Io S Fields
  -- PUT /peers
  pub put_peer : Connection → PeerConfig → Io S (Unit {0})
  -- DELETE of a path
  pub delete : Connection → String → Io S (Unit {0})

-- The agent is called at `endpoint.rstrip("/")`.
abbrev pub trimmed : Connection → Connection
trimmed c = record c { endpoint = rstrip_char 47 c.endpoint }

module _ {S : Type 0} (agent : NodeAgent S) where
  -- `put_peers`: one request per peer
  unfoldable pub put_peers : Connection → List PeerConfig → Io S (Unit {0})
  put_peers c [] = pure tt
  put_peers c (peer ∷ peers) = agent.put_peer (trimmed c) peer >> put_peers c peers

  unfoldable pub delete_peer : Connection → String → Io S (Unit {0})
  delete_peer c public_key = agent.delete (trimmed c) ("/peers/" <> public_key)
