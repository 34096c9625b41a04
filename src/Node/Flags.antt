-- ===== src/Node/Flags.antt =====
-- The command line of `ParseConfig`, as `Parse` of the package flag reads it: eight flags with a value
-- and the Boolean flag -healthcheck.
pub mod Print
use distributed_p2p_ledger.Base.{
  ℕ, ◌≡◌, refl, Bool, true, false, not, ◌||◌, List, [], ◌∷◌, ◌++◌, Bytes, codes, ◌==◌, ◌==ₛ◌,
  has_prefix, if◌then◌else◌, Option, none, some, Error, Result, ok, err, help_requested,
  invalid_flags,
}

-- The flags with a value.
pub data Flag : Type 0 where
  bind port addr peers chain difficulty mine_interval sync_interval : Flag

-- What the variables of `ParseConfig` hold.
pub record Settings : Type 0 where
  pub value : Flag → Bytes
  pub healthcheck : Bool

abbrev pub same_flag : Flag → Flag → Bool
same_flag bind bind = true
same_flag port port = true
same_flag addr addr = true
same_flag peers peers = true
same_flag chain chain = true
same_flag difficulty difficulty = true
same_flag mine_interval mine_interval = true
same_flag sync_interval sync_interval = true
same_flag _ _ = false

abbrev pub set_flag : Flag → Bytes → Settings → Settings
set_flag f v s = record s { value = λ g. if same_flag f g then v else s.value g }

abbrev pub flag_name : Flag → Bytes
flag_name bind = codes "bind"
flag_name port = codes "port"
flag_name addr = codes "addr"
flag_name peers = codes "peers"
flag_name chain = codes "chain"
flag_name difficulty = codes "difficulty"
flag_name mine_interval = codes "mine-interval"
flag_name sync_interval = codes "sync-interval"

-- What a name stands for.
pub data Named : Type 0 where
  with_value : Flag → Named
  health : Named
  help : Named
  undefined : Named

unfoldable pub lookup_flag : Bytes → Named
lookup_flag name =
    if name ==ₛ codes "bind"
    then with_value bind
    else if name ==ₛ codes "port"
    then with_value port
    else if name ==ₛ codes "addr"
    then with_value addr
    else if name ==ₛ codes "peers"
    then with_value peers
    else if name ==ₛ codes "chain"
    then with_value chain
    else if name ==ₛ codes "difficulty"
    then with_value difficulty
    else if name ==ₛ codes "mine-interval"
    then with_value mine_interval
    else if name ==ₛ codes "sync-interval"
    then with_value sync_interval
    else if name ==ₛ codes "healthcheck"
    then health
    else if (name ==ₛ codes "help") || (name ==ₛ codes "h")
    then help
    else undefined

-- What an argument is: the end of the flags, "--", a malformed flag, or a name, perhaps with a value.
pub data Argument : Type 0 where
  operand : Argument
  end_mark : Argument
  malformed : Argument
  named : Bytes → Option Bytes → Argument

-- The name up to the first equals sign, which cannot stand first, and what stands behind it.
unfoldable pub split_value : Bytes → Bytes → Argument
split_value name [] = named name none
split_value name (c ∷ s) =
    let rest = split_value (name ++ c ∷ []) s in if c == b'=' then named name (some s) else rest

unfoldable pub read_name : Bytes → Argument
unfolding split_value
read_name [] = malformed
read_name (c ∷ s) = if c == b'-' || c == b'=' then malformed else split_value (c ∷ []) s

unfoldable pub classify : Bytes → Argument
unfolding read_name
classify [] = operand
classify (c ∷ []) = operand
classify (c ∷ d ∷ s) =
    if not (c == b'-')
    then operand
    else if not (d == b'-')
    then read_name (d ∷ s)
    else elim s [ [] ↦ end_mark | e ∷ t ↦ read_name (e ∷ t) ]

-- strconv.ParseBool
unfoldable pub parse_bool : Bytes → Option Bool
parse_bool s =
    if (s ==ₛ codes "1")
      || (s ==ₛ codes "t")
      || (s ==ₛ codes "T")
      || (s ==ₛ codes "true")
      || (s ==ₛ codes "TRUE")
      || (s ==ₛ codes "True")
    then some true
    else if (s ==ₛ codes "0")
        || (s ==ₛ codes "f")
        || (s ==ₛ codes "F")
        || (s ==ₛ codes "false")
        || (s ==ₛ codes "FALSE")
        || (s ==ₛ codes "False")
    then some false
    else none

-- The Boolean flag, with the value behind its equals sign.
unfoldable pub set_health : Option Bytes → Settings → Result Settings
set_health none s = ok (record s { healthcheck = true })
set_health (some v) s = elim (parse_bool v) [
  | none ↦ err invalid_flags
  | some b ↦ ok (record s { healthcheck = b })
]

-- The loop over the arguments, with the flag that waits for the next one as its value. The result is
-- the settings and the arguments that are left.
unfoldable pub parse_flags : Option Flag → List Bytes → Settings → Result (Settings × List Bytes)
unfolding set_health
parse_flags (some f) [] s = err invalid_flags
parse_flags (some f) (v ∷ args) s = parse_flags none args (set_flag f v s)
parse_flags none [] s = ok (s, [])
parse_flags none (arg ∷ args) s = elim (classify arg) [
  | operand ↦ ok (s, arg ∷ args)
  | end_mark ↦ ok (s, args)
  | malformed ↦ err invalid_flags
  | named name v ↦ elim (lookup_flag name) [
    | undefined ↦ err invalid_flags
    | help ↦ err help_requested
    | health ↦ elim (set_health v s) [ err e ↦ err e | ok s' ↦ parse_flags none args s' ]
    | with_value f ↦ elim v [
      | some x ↦ parse_flags none args (set_flag f x s)
      | none ↦ parse_flags (some f) args s
    ]
  ]
]
