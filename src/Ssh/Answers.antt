-- ===== src/Ssh/Answers.antt =====
-- What Connect of internal/ssh/client.go answers, and what it leaves open.
use session_proxy.Prelude.{
  ℕ, ◌<◌, ◌≡◌, ◌≢◌, ◌⊎◌, sym, append-nil, refl, true, false, ◌&&◌, List, [], ◌∷◌, ◌++◌, Option,
  none, some, arith, Bool-cases, Option-cases, inl, inr, subst,
}
use session_proxy.Prelude.Bytes.{Bytes, is_nil, is_nil_iff, not_nil_iff}
use session_proxy.Ssh.{
  SshLogin, Machine, SshError, key_not_read, key_not_parsed, no_authentication, handshake_refused,
  handshake_timed_out, Connected, AuthMethod, agent_keys, private_key, has_signers, expand_path,
  try_agent, try_private_key, shake_hands, proceed, connect,
}

-- The agent can be reached, and it has keys.
abbrev pub HasAgent : Machine → Type 0
HasAgent m =
    (m.auth_sock ≡ true) × (m.agent_dialled ≡ true) × (n : ℕ) × (m.signers ≡ some n) × (0 < n)

-- The methods of authentication: the agent's keys where it has some, and behind them the configured
-- key, which was read and parsed, where one is configured.
abbrev pub Methods : Machine → SshLogin → List AuthMethod → Type 0
Methods m cfg ms =
    (agents keys : List AuthMethod) × (ms ≡ agents ++ keys)
    × ((HasAgent m × (agents ≡ agent_keys ∷ [])) ⊎ ((¬ HasAgent m) × (agents ≡ [])))
    × (((cfg.private_key_path ≡ []) × (keys ≡ []))
        ⊎ ((cfg.private_key_path ≢ [])
            × ((key : Bytes) × (m.read_file (expand_path m.home cfg.private_key_path) ≡ some key)
                × (m.parses key ≡ true)
                × (keys ≡ private_key key ∷ []))))

-- What an answer says of the machine and of the methods and the connection.
abbrev pub Answered : Machine → SshLogin → Connected → Option SshError → Type 0
Answered m cfg c none =
    Methods m cfg c.methods × (c.methods ≢ []) × (m.handshake ≡ some true) × (c.conn_closed ≡ false)
Answered m cfg c (some key_not_read) =
    (cfg.private_key_path ≢ []) × (m.read_file (expand_path m.home cfg.private_key_path) ≡ none)
Answered m cfg c (some key_not_parsed) =
    (cfg.private_key_path ≢ [])
    × ((key : Bytes) × (m.read_file (expand_path m.home cfg.private_key_path) ≡ some key)
        × (m.parses key ≡ false))
Answered m cfg c (some no_authentication) = (cfg.private_key_path ≡ []) × (¬ HasAgent m)
Answered m cfg c (some handshake_refused) =
    Methods m cfg c.methods × (c.methods ≢ []) × (m.handshake ≡ some false)
Answered m cfg c (some handshake_timed_out) =
    Methods m cfg c.methods × (c.methods ≢ []) × (m.handshake ≡ none) × (c.conn_closed ≡ true)

module _ (m : Machine) (cfg : SshLogin) where
  -- The state in front of the handshake.
  record Prepared (c : Connected) : Type 0 where
    no_error : c.answer ≡ none
    still_open : c.conn_closed ≡ false
    has_methods : Methods m cfg c.methods

  -- Without a method there is no key and no agent.
  none_offered :
      (ms : List AuthMethod)
      → Methods m cfg ms
      → ms ≡ []
      → (cfg.private_key_path ≡ []) × (¬ HasAgent m)
  none_offered ms (agents, keys, e, inl (has, a), k) n = absurd (ground (arith, n, e, a))
  none_offered ms (agents, keys, e, inr (lacks, a), inl (p, k)) n = (p, lacks)
  none_offered ms (agents, keys, e, inr (lacks, a), inr (p, (key, r, q, k))) n =
      absurd (ground (arith, n, e, a, k))

  abbrev IsAnswered : Connected → Type 0
  IsAnswered c = Answered m cfg c c.answer

  becomes : (c d : Connected) → c ≡ d → IsAnswered c → IsAnswered d
  becomes c d e a = subst IsAnswered e a

  proceeds : (c d : Connected) → c ≡ d → IsAnswered (proceed m c) → IsAnswered (proceed m d)
  proceeds c d e a = subst (λ k. IsAnswered (proceed m k)) e a

  shake_hands-Answered : (c : Connected) → Prepared c → IsAnswered (shake_hands m c)
  unfolding shake_hands
  shake_hands-Answered c p = elim (Bool-cases (is_nil c.methods)) [
    | inl n ↦
        becomes (record c { answer = some no_authentication }) (shake_hands m c) (ground (arith, n))
          (none_offered c.methods p.has_methods ((is_nil_iff c.methods).0 n))
    | inr n ↦ elim (Option-cases m.handshake) [
      | inl t ↦
          becomes (record c { answer = some handshake_timed_out; conn_closed = true })
            (shake_hands m c) (ground (arith, n, t))
            (p.has_methods, (not_nil_iff c.methods).0 n, t, refl)
      | inr (true, t) ↦
          becomes (record c { answer = none }) (shake_hands m c) (ground (arith, n, t, p.no_error))
            (p.has_methods, (not_nil_iff c.methods).0 n, t, p.still_open)
      | inr (false, t) ↦
          becomes (record c { answer = some handshake_refused }) (shake_hands m c)
            (ground (arith, n, t)) (p.has_methods, (not_nil_iff c.methods).0 n, t)
    ]
  ]

  agent_open_conn : ((try_agent m).conn_closed ≡ false) × ((try_agent m).answer ≡ none)
  unfolding try_agent
  agent_open_conn = ground arith

  -- What the agent offers.
  agent_methods :
      (HasAgent m × ((try_agent m).methods ≡ agent_keys ∷ []))
      ⊎ ((¬ HasAgent m) × ((try_agent m).methods ≡ []))
  unfolding try_agent has_signers
  agent_methods = elim (Bool-cases (m.auth_sock && m.agent_dialled && has_signers m.signers)) [
    | inl h ↦ elim (Option-cases m.signers) [
      | inl e ↦ absurd (ground (arith, h, e))
      | inr (n, e) ↦
          inl
            ((ground (arith, h), ground (arith, h), n, e, ground (arith, h, e)), ground (arith, h))
    ]
    | inr h ↦ inr (λ (a, d, n, e, l). ground (arith, h, a, d, e, l), ground (arith, h))
  ]

  agent-Prepared : cfg.private_key_path ≡ [] → Prepared (try_agent m)
  agent-Prepared e = record {
    no_error = agent_open_conn.1;
    still_open = agent_open_conn.0;
    has_methods = (
      (try_agent m).methods,
      [],
      sym (append-nil (try_agent m).methods),
      agent_methods,
      inl (e, refl),
    );
  }

  -- The state with the key's method.
  abbrev keyed : Bytes → Connected
  keyed key = record (try_agent m) { methods = (try_agent m).methods ++ (private_key key ∷ []) }

  keyed-Prepared :
      (key : Bytes)
      → cfg.private_key_path ≢ []
      → m.read_file (expand_path m.home cfg.private_key_path) ≡ some key
      → m.parses key ≡ true
      → Prepared (keyed key)
  keyed-Prepared key p r q = record {
    no_error = agent_open_conn.1;
    still_open = agent_open_conn.0;
    has_methods = (
      (try_agent m).methods,
      private_key key ∷ [],
      refl,
      agent_methods,
      inr (p, (key, r, q, refl)),
    );
  }

  proceed-Answered : (c : Connected) → Prepared c → IsAnswered (proceed m c)
  unfolding proceed
  proceed-Answered c p =
      becomes (shake_hands m c) (proceed m c) (ground (arith, p.no_error))
        (shake_hands-Answered c p)

  failed-Answered :
      (c : Connected) (e : SshError)
      → IsAnswered (record c { answer = some e })
      → IsAnswered (proceed m (record c { answer = some e }))
  unfolding proceed
  failed-Answered c e h = h

  -- Connect closes its connection to the agent whatever it comes to. A configured key that cannot be
  -- read or parsed is the answer, whatever the agent has. Else the methods of authentication are the
  -- agent's keys, where it has some, with the configured key behind them; where there are none, that
  -- is the answer, and where there are, the handshake decides: it succeeds, is refused, or is not
  -- answered in time, with the connection then closed.
  pub connect-Answered :
      Answered m cfg (connect m cfg) (connect m cfg).answer × ((connect m cfg).agent_open ≡ false)
  unfolding connect try_private_key
  connect-Answered = (
    elim (Bool-cases (is_nil cfg.private_key_path)) [
      | inl n ↦
          proceeds (try_agent m) (try_private_key m cfg (try_agent m)) (ground (arith, n)) (
            proceed-Answered (try_agent m) (agent-Prepared ((is_nil_iff cfg.private_key_path).0 n)))
      | inr n ↦ elim (Option-cases (m.read_file (expand_path m.home cfg.private_key_path))) [
        | inl r ↦
            proceeds (record (try_agent m) { answer = some key_not_read })
              (try_private_key m cfg (try_agent m)) (ground (arith, n, r))
              (failed-Answered (try_agent m) key_not_read
                ((not_nil_iff cfg.private_key_path).0 n, r))
        | inr (key, r) ↦ elim (Bool-cases (m.parses key)) [
          | inl q ↦
              proceeds (keyed key) (try_private_key m cfg (try_agent m)) (ground (arith, n, r, q)) (
                proceed-Answered (keyed key)
                  (keyed-Prepared key ((not_nil_iff cfg.private_key_path).0 n) r q))
          | inr q ↦
              proceeds (record (try_agent m) { answer = some key_not_parsed })
                (try_private_key m cfg (try_agent m)) (ground (arith, n, r, q))
                (failed-Answered (try_agent m) key_not_parsed
                  ((not_nil_iff cfg.private_key_path).0 n, (key, r, q)))
        ]
      ]
    ],
    refl,
  )
