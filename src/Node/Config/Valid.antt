-- ===== src/Node/Config/Valid.antt =====
-- What `ParseConfig` accepts.
use distributed_p2p_ledger.Base.{
  ◌≡◌, ◌↔◌, refl, ap, sym, ◌∙◌, Bool, true, false, not, List, [], append-nil, Bytes, arith, ℤ, pos,
  ◌≤ℤ◌, Option, none, some, Error, Result, ok, >>=-eq-ok, reject, reject-ok, invalid_bind,
  not_an_integer, invalid_mining_interval, invalid_sync_interval, invalid_address,
}
use distributed_p2p_ledger.Text.{atoi, trim_right_byte}
use distributed_p2p_ledger.Models.Block.{check_difficulty}
use distributed_p2p_ledger.Models.Block.Validity.{IsDifficulty, check_difficulty_iff}
use distributed_p2p_ledger.Node.Flags.{
  bind, port, addr, peers, chain, difficulty, mine_interval, sync_interval, Settings, parse_flags,
}
use distributed_p2p_ledger.Node.Flags.Print.{
  Setting, command_line, apply_settings, parse_flags-command_line,
}
use distributed_p2p_ledger.Node.Config.{
  Parsers, NodeConfig, default_settings, or_error, parse_port, min_interval, check_interval,
  is_node_url, address_or, chain_file_or, config_of, check_settings, parse_config,
}

-- A configuration that can be run, and how it comes from the settings.
pub record IsConfigOf (parse : Parsers) (s : Settings) (c : NodeConfig) : Type 0 where
  pub ip : parse.is_ip c.bind_ip ≡ true
  pub port_range : (pos 1 ≤ℤ c.listen_port) × (c.listen_port ≤ℤ pos 65535)
  pub port_text : atoi (s.value port) ≡ some c.listen_port
  pub difficulty_range : IsDifficulty c.required_zeros
  pub difficulty_text : atoi (s.value difficulty) ≡ some c.required_zeros
  pub mine_text : parse.duration (s.value mine_interval) ≡ some c.mine_every
  pub mine_range : min_interval ≤ℤ c.mine_every
  pub sync_text : parse.duration (s.value sync_interval) ≡ some c.sync_every
  pub sync_range : min_interval ≤ℤ c.sync_every
  pub address : is_node_url (parse.url (address_or (s.value addr) c.listen_port)) ≡ true
  pub trimmed : c.node_addr ≡ trim_right_byte b'/' (address_or (s.value addr) c.listen_port)
  pub bind_text : c.bind_ip ≡ s.value bind
  pub peers_text : c.peers_file ≡ s.value peers
  pub chain_text : c.chain_file ≡ chain_file_or (s.value chain) c.listen_port
  pub health : c.healthcheck ≡ s.healthcheck

or_error-ok {ℓ} : {A : Type ℓ} (e : Error) (o : Option A) {a : A} → or_error e o ≡ ok a → o ≡ some a
or_error-ok e none h = cc
or_error-ok e (some a) h = cc

ok-injective : {A : Type 0} {a b : A} → ◌≡◌ {A = Result A} (ok a) (ok b) → a ≡ b
ok-injective h = cc

not-false : (b : Bool) → not b ≡ false → b ≡ true
not-false true h = refl
not-false false h = cc

parse_port_iff :
    (s : Bytes) (p : ℤ)
    → (parse_port s ≡ ok p) ↔ ((atoi s ≡ some p) × (pos 1 ≤ℤ p) × (p ≤ℤ pos 65535))
unfolding parse_port
parse_port_iff s p = (λ h. ground arith, λ h. ground arith)

check_interval_iff :
    (e : Error) (d : Option ℤ) (n : ℤ)
    → (check_interval e d ≡ ok n) ↔ ((d ≡ some n) × (min_interval ≤ℤ n))
unfolding check_interval
check_interval_iff e d n = (λ h. ground arith, λ h. ground arith)

module _ (parse : Parsers) (s : Settings) (c : NodeConfig) where
  check_settings-IsConfigOf : check_settings parse s ≡ ok c → IsConfigOf parse s c
  unfolding check_settings
  check_settings-IsConfigOf h =
      let (_, ip, h₁) = >>=-eq-ok (reject (not (parse.is_ip (s.value bind))) invalid_bind) _ h in
      let (p, port_ok, h₂) = >>=-eq-ok (parse_port (s.value port)) _ h₁ in
      let (d, d_ok, h₃) = >>=-eq-ok (or_error not_an_integer (atoi (s.value difficulty))) _ h₂ in
      let (_, range, h₄) = >>=-eq-ok (check_difficulty d) _ h₃ in
      let (m, mine, h₅) =
        >>=-eq-ok (check_interval invalid_mining_interval (parse.duration (s.value mine_interval)))
          _ h₄ in
      let (y, sync, h₆) =
        >>=-eq-ok (check_interval invalid_sync_interval (parse.duration (s.value sync_interval))) _
          h₅ in
      let (_, url, h₇) =
        >>=-eq-ok
          (reject (not (is_node_url (parse.url (address_or (s.value addr) p)))) invalid_address) _
          h₆ in
      let same : config_of s p d m y ≡ c = ok-injective h₇ in
      let ports = (parse_port_iff (s.value port) p).0 port_ok in
      let mines =
        (check_interval_iff invalid_mining_interval (parse.duration (s.value mine_interval)) m).0
          mine in
      let syncs =
        (check_interval_iff invalid_sync_interval (parse.duration (s.value sync_interval)) y).0
          sync in
      rw (← same) (record {
        ip =
            not-false (parse.is_ip (s.value bind))
              (reject-ok (not (parse.is_ip (s.value bind))) invalid_bind ip);
        port_range = (ports.1, ports.2);
        port_text = ports.0;
        difficulty_range = (check_difficulty_iff d).0 range;
        difficulty_text = or_error-ok not_an_integer (atoi (s.value difficulty)) d_ok;
        mine_text = mines.0;
        mine_range = mines.1;
        sync_text = syncs.0;
        sync_range = syncs.1;
        address = not-false (is_node_url (parse.url (address_or (s.value addr) p))) (
            reject-ok (not (is_node_url (parse.url (address_or (s.value addr) p)))) invalid_address
              url);
        trimmed = refl;
        bind_text = refl;
        peers_text = refl;
        chain_text = refl;
        health = refl;
      })

  IsConfigOf-config_of :
      IsConfigOf parse s c
      → config_of s c.listen_port c.required_zeros c.mine_every c.sync_every ≡ c
  IsConfigOf-config_of v =
      ground (arith, v.bind_text, v.trimmed, v.peers_text, v.chain_text, v.health)

  IsConfigOf-check_settings : IsConfigOf parse s c → check_settings parse s ≡ ok c
  unfolding check_settings
  IsConfigOf-check_settings v =
      let ip : parse.is_ip (s.value bind) ≡ true = ap parse.is_ip (sym v.bind_text) ∙ v.ip in
      rw
        (
          ip,
          (parse_port_iff (s.value port) c.listen_port).1
              (v.port_text, v.port_range.0, v.port_range.1),
          v.difficulty_text,
          (check_difficulty_iff c.required_zeros).1 v.difficulty_range,
          (check_interval_iff invalid_mining_interval (parse.duration (s.value mine_interval))
                c.mine_every).1
              (v.mine_text, v.mine_range),
          (check_interval_iff invalid_sync_interval (parse.duration (s.value sync_interval))
                c.sync_every).1
              (v.sync_text, v.sync_range),
          v.address,
        )
        (ap ok (IsConfigOf-config_of v))

-- `ParseConfig`, on settings written as arguments in any of the four styles, returns exactly the
-- configuration that these settings, the last of each name, before the variables of the
-- environment and the defaults, make, if each value is in its range, and otherwise none.
pub parse_config-command_line :
    (parse : Parsers) (ss : List Setting) (lookup : Bytes → Bytes) (c : NodeConfig)
    → (parse_config parse (command_line ss) lookup ≡ ok c)
      ↔ IsConfigOf parse (apply_settings ss (default_settings lookup)) c
unfolding parse_config parse_flags
parse_config-command_line parse ss lookup c =
    let s = apply_settings ss (default_settings lookup) in
    let parsed : parse_flags none (command_line ss) (default_settings lookup) ≡ ok (s, []) =
      ap (λ (l : List Bytes). parse_flags none l (default_settings lookup))
        (sym (append-nil (command_line ss)))
      ∙ parse_flags-command_line ss [] (default_settings lookup) in
    rw (parsed, parse_config)
      (check_settings-IsConfigOf parse s c, IsConfigOf-check_settings parse s c)
