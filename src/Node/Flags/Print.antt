-- ===== src/Node/Flags/Print.antt =====
-- Settings written as arguments, and read back.
use distributed_p2p_ledger.Base.{
  ◌≡◌, refl, ap, ◌∙◌, Bool, true, false, List, [], ◌∷◌, ◌++◌, append_assoc, Bytes, codes, ◌==ₛ◌,
  none, some,
}
use distributed_p2p_ledger.Node.Flags.{
  Flag, bind, port, addr, peers, chain, difficulty, mine_interval, sync_interval, Settings,
  set_flag, flag_name, with_value, lookup_flag, named, classify, parse_flags,
}

-- How a setting is written: as -name value, --name value, -name=value or --name=value.
pub data Style : Type 0 where
  spaced : Bool → Style
  joined : Bool → Style

abbrev dashes : Bool → Bytes
dashes true = codes "--"
dashes false = codes "-"

pub record Setting : Type 0 where
  pub flag : Flag
  pub style : Style
  pub text : Bytes

abbrev pub arguments : Setting → List Bytes
arguments s = elim s.style [
  | spaced long ↦ (dashes long ++ flag_name s.flag) ∷ s.text ∷ []
  | joined long ↦ (dashes long ++ (flag_name s.flag ++ b'=' ∷ s.text)) ∷ []
]

abbrev pub command_line : List Setting → List Bytes
command_line [] = []
command_line (s ∷ ss) = arguments s ++ command_line ss

-- Each setting in turn, so that a later one overrides an earlier one.
abbrev pub apply_settings : List Setting → Settings → Settings
apply_settings [] t = t
apply_settings (s ∷ ss) t = apply_settings ss (set_flag s.flag s.text t)

lookup_flag-flag_name : (f : Flag) → lookup_flag (flag_name f) ≡ with_value f
unfolding lookup_flag ◌==ₛ◌
lookup_flag-flag_name bind = refl
lookup_flag-flag_name port = refl
lookup_flag-flag_name addr = refl
lookup_flag-flag_name peers = refl
lookup_flag-flag_name chain = refl
lookup_flag-flag_name difficulty = refl
lookup_flag-flag_name mine_interval = refl
lookup_flag-flag_name sync_interval = refl

classify-spaced :
    (long : Bool) (f : Flag) → classify (dashes long ++ flag_name f) ≡ named (flag_name f) none
unfolding classify
classify-spaced true bind = refl
classify-spaced true port = refl
classify-spaced true addr = refl
classify-spaced true peers = refl
classify-spaced true chain = refl
classify-spaced true difficulty = refl
classify-spaced true mine_interval = refl
classify-spaced true sync_interval = refl
classify-spaced false bind = refl
classify-spaced false port = refl
classify-spaced false addr = refl
classify-spaced false peers = refl
classify-spaced false chain = refl
classify-spaced false difficulty = refl
classify-spaced false mine_interval = refl
classify-spaced false sync_interval = refl

classify-joined :
    (long : Bool) (f : Flag) (v : Bytes)
    → classify (dashes long ++ (flag_name f ++ b'=' ∷ v)) ≡ named (flag_name f) (some v)
unfolding classify
classify-joined true bind v = refl
classify-joined true port v = refl
classify-joined true addr v = refl
classify-joined true peers v = refl
classify-joined true chain v = refl
classify-joined true difficulty v = refl
classify-joined true mine_interval v = refl
classify-joined true sync_interval v = refl
classify-joined false bind v = refl
classify-joined false port v = refl
classify-joined false addr v = refl
classify-joined false peers v = refl
classify-joined false chain v = refl
classify-joined false difficulty v = refl
classify-joined false mine_interval v = refl
classify-joined false sync_interval v = refl

parse_flags-arguments :
    (s : Setting) (args : List Bytes) (t : Settings)
    → parse_flags none (arguments s ++ args) t ≡ parse_flags none args (set_flag s.flag s.text t)
unfolding parse_flags
parse_flags-arguments s args t =
    elim s.style
      as (λ (style : Style).
        parse_flags none (arguments (record s { style = style }) ++ args) t
        ≡ parse_flags none args (set_flag s.flag s.text t)) [
          | spaced long ↦
              rw (classify-spaced long s.flag, lookup_flag-flag_name s.flag, parse_flags) refl
          | joined long ↦
              rw (classify-joined long s.flag s.text, lookup_flag-flag_name s.flag, parse_flags)
                refl
        ]

-- Settings that are written as arguments are read as written, a later one in place of an earlier one,
-- whatever stands behind them.
pub parse_flags-command_line :
    (ss : List Setting) (args : List Bytes) (t : Settings)
    → parse_flags none (command_line ss ++ args) t ≡ parse_flags none args (apply_settings ss t)
parse_flags-command_line [] args t = refl
parse_flags-command_line (s ∷ ss) args t =
    ap (λ (l : List Bytes). parse_flags none l t)
      (append_assoc (arguments s) (command_line ss) args)
    ∙ parse_flags-arguments s (command_line ss ++ args) t
    ∙ parse_flags-command_line ss args (set_flag s.flag s.text t)
