-- ===== src/Tunnel/Connect.antt =====
-- dialer.go: readKnownHostFingerprint, connectSSH and its host key callback. The key files, the
-- socket, the server and the disk are parameters; the socket options are left out.
use ssh_gate.Prelude.{
  ◌≡◌, ◌≢◌, sym, ap, subst, ◌∙◌, ◌⊎◌, inl, inr, [], Option, none, some, Text, codes, text_beq,
  text_beq_iff, trim_space, if◌then◌else◌, Bool-cases, Option-cases, arith,
}
use ssh_gate.Tunnel.Status.{TunnelState, unreachable, SshError, plain_error, handshake_state}

-- readKnownHostFingerprint, on what os.ReadFile gives: no file, an error, or the content.
pub data FileRead : Type 0 where
  missing : FileRead
  unreadable : Text → FileRead
  content : Text → FileRead

unfoldable pub read_known_host_fingerprint : FileRead → SshError ⊎ Text
read_known_host_fingerprint missing = inr []
read_known_host_fingerprint (unreadable e) = inl (plain_error e)
read_known_host_fingerprint (content text) =
    if text_beq (trim_space text) []
    then inl (plain_error (codes "exists but is empty"))
    else inr (trim_space text)

-- What the world does in one connect: the error of each call, and the server.
pub record Connect : Type 0 where
  -- os.ReadFile of the key, ssh.ParsePrivateKey, net.Dialer.Dial.
  pub read_key : Option Text
  pub parse_key : Option Text
  pub dial : Option Text
  pub set_deadline : Option Text
  -- ssh.NewClientConn: the fingerprint of the key that the server shows, where the exchange gets so
  -- far, and the error after the callback has accepted it.
  pub offered : Option Text
  pub handshake : Option Text
  pub clear_deadline : Option Text
  -- writeFileAtomic.
  pub save : Option Text

-- The host key callback, on the fingerprint of the key.
unfoldable pub check_host_key : Text → Text → Option SshError
check_host_key fingerprint got =
    if text_beq fingerprint []
    then none
    else if text_beq got fingerprint
    then none
    else some (record {
      text = codes "host key mismatch";
      tag = none;
      mismatch = some (fingerprint, got);
    })

-- ssh.NewClientConn: it fails with the callback's error.
unfoldable pub client_conn : Text → Connect → Option SshError
unfolding check_host_key
client_conn fingerprint w = elim w.offered [
  | none ↦ elim w.handshake [ none ↦ none | some e ↦ some (plain_error e) ]
  | some got ↦ elim (check_host_key fingerprint got) [
    | some e ↦ some e
    | none ↦ elim w.handshake [ none ↦ none | some e ↦ some (plain_error e) ]
  ]
]

abbrev pub tag_error : TunnelState → SshError → SshError
tag_error state e = record e { tag = some state }

-- The end of connectSSH, with a client: TOFU. The file ssh_known_hosts and the fingerprint.
unfoldable pub trust : Text → Connect → Option Text → Option Text × (SshError ⊎ Text)
trust fingerprint w known_hosts = elim w.offered [
  | none ↦ (known_hosts, inr [])
  | some fp ↦
      if text_beq fingerprint []
      then elim w.save [ some e ↦ (known_hosts, inl (plain_error e)) | none ↦ (some fp, inr fp) ]
      else (known_hosts, inr fp)
]

-- connectSSH: the file ssh_known_hosts, and the error or the fingerprint of the connection.
unfoldable pub connect_ssh : Text → Connect → Option Text → Option Text × (SshError ⊎ Text)
unfolding client_conn trust
connect_ssh fingerprint w known_hosts = elim w.read_key [
  | some e ↦ (known_hosts, inl (plain_error e))
  | none ↦ elim w.parse_key [
    | some e ↦ (known_hosts, inl (plain_error e))
    | none ↦ elim w.dial [
      | some e ↦ (known_hosts, inl (tag_error unreachable (plain_error e)))
      | none ↦ elim w.set_deadline [
        | some e ↦ (known_hosts, inl (plain_error e))
        | none ↦ elim (client_conn fingerprint w) [
          | some e ↦ (known_hosts, inl (tag_error (handshake_state e) e))
          | none ↦ elim w.clear_deadline [
            | some e ↦ (known_hosts, inl (plain_error e))
            | none ↦ trust fingerprint w known_hosts
          ]
        ]
      ]
    ]
  ]
]

-- What a connection is trusted on: the pinned key, or on first use the key that is saved.
pub record IsTrusted (fingerprint : Text) (w : Connect) (before after : Option Text) (fp : Text)
    : Type 0 where
  pub pinned :
      fingerprint ≢ [] → (w.offered ≡ some fingerprint) × (fp ≡ fingerprint) × (after ≡ before)
  pub first_use : fingerprint ≡ [] → (after ≡ some fp) × (w.offered ≡ some fp)

client_conn_ok :
    (fingerprint : Text) (w : Connect) (got : Text)
    → w.offered ≡ some got
    → client_conn fingerprint w ≡ none
    → fingerprint ≢ []
    → got ≡ fingerprint
unfolding client_conn check_host_key
client_conn_ok fingerprint w got offered e given =
    ground (arith, text_beq_iff fingerprint [], text_beq_iff got fingerprint)

trust-IsTrusted :
    (fingerprint : Text) (w : Connect) (got fp : Text) (before : Option Text)
    → w.offered ≡ some got
    → client_conn fingerprint w ≡ none
    → (trust fingerprint w before).1 ≡ inr fp
    → IsTrusted fingerprint w before (trust fingerprint w before).0 fp
unfolding trust
trust-IsTrusted fingerprint w got fp before offered e h =
    elim (Bool-cases (text_beq fingerprint [])) [
      | inl empty ↦
          let none_pinned : fingerprint ≡ [] = (text_beq_iff fingerprint []).0 empty in
          record { pinned = λ given. absurd (given none_pinned); first_use = λ x. ground arith }
      | inr set ↦ record {
        pinned = λ given.
            let same = client_conn_ok fingerprint w got offered e given in ground (arith, same);
        first_use = λ x. absurd (ground (arith, text_beq_iff fingerprint []));
      }
    ]

-- A connect that succeeds passed the callback, and ends in the trust of the key.
connect_ssh_ok :
    (fingerprint : Text) (w : Connect) (fp : Text) (before : Option Text)
    → (connect_ssh fingerprint w before).1 ≡ inr fp
    → (client_conn fingerprint w ≡ none)
      × (connect_ssh fingerprint w before ≡ trust fingerprint w before)
unfolding connect_ssh
connect_ssh_ok fingerprint w fp before h = elim (Option-cases w.read_key) [
  | inr (x, a) ↦ absurd (ground (arith, a))
  | inl a ↦ elim (Option-cases w.parse_key) [
    | inr (x, b) ↦ absurd (ground (arith, a, b))
    | inl b ↦ elim (Option-cases w.dial) [
      | inr (x, c) ↦ absurd (ground (arith, a, b, c))
      | inl c ↦ elim (Option-cases w.set_deadline) [
        | inr (x, d) ↦ absurd (ground (arith, a, b, c, d))
        | inl d ↦ elim (Option-cases (client_conn fingerprint w)) [
          | inr (x, e) ↦ absurd (ground (arith, a, b, c, d, e))
          | inl e ↦ elim (Option-cases w.clear_deadline) [
            | inr (x, f) ↦ absurd (ground (arith, a, b, c, d, e, f))
            | inl f ↦ (e, ground (arith, a, b, c, d, e, f))
          ]
        ]
      ]
    ]
  ]
]

-- A connection stands only on the pinned key, or on first use on a key that ssh_known_hosts then
-- holds; a connect that fails to save the key fails. The server has shown a key, as in every SSH key
-- exchange.
pub connect_ssh-IsTrusted :
    (fingerprint : Text) (w : Connect) (got fp : Text) (before : Option Text)
    → w.offered ≡ some got
    → (connect_ssh fingerprint w before).1 ≡ inr fp
    → IsTrusted fingerprint w before (connect_ssh fingerprint w before).0 fp
connect_ssh-IsTrusted fingerprint w got fp before offered h =
    let (passed, same) = connect_ssh_ok fingerprint w fp before h in
    subst (λ r. IsTrusted fingerprint w before r.0 fp) (sym same)
      (trust-IsTrusted fingerprint w got fp before offered passed (ap (λ r. r.1) (sym same) ∙ h))
