-- ===== src/Node/Startup/Exit.antt =====
-- When the process ends with status 0.
use distributed_p2p_ledger.Base.{
  ℕ, ◌≡◌, ◌↔◌, ◌⊎◌, refl, ap, sym, ◌∙◌, inl, inr, Bool, Bool-cases, true, false, List, Bytes, arith,
  Option, none, some, if◌then◌else◌, Error, port_in_use, help_requested, Result, Result-cases, ok,
  err,
}
use distributed_p2p_ledger.Storage.ChainFile.{Disk}
use distributed_p2p_ledger.Gossip.{Engine}
use distributed_p2p_ledger.Node.Config.{NodeConfig, parse_config}
use distributed_p2p_ledger.Node.Startup.{
  World, Stop, signaled, serve_returns, is_server_closed, is_help, check_health, start_engine,
  stop_result, run_engine, run_engine-refused, run_started, run_node, run_node-checks,
  run_node-starts, exit_code, main_node,
}

-- `Serve` did not fail.
abbrev pub StopsWell : Stop → Type 0
StopsWell signaled = Unit
StopsWell (serve_returns e) = is_server_closed e ≡ true

-- A node that starts, serves, and is shut down in time.
pub record RunsWell (w : World) (c : NodeConfig) (disk : Disk) : Type 0 where
  pub starts : (g : Engine) × ((start_engine w c disk).0 ≡ ok g)
  pub listens : w.listens ≡ true
  pub stops : StopsWell w.stop
  pub shuts_down : w.shuts_down ≡ true

stop_result_iff : (s : Stop) (b : Bool) → (stop_result s b ≡ ok tt) ↔ (StopsWell s × (b ≡ true))
unfolding stop_result
stop_result_iff signaled true = (λ h. (tt, refl), λ h. refl)
stop_result_iff signaled false = (λ h. absurd cc, λ h. absurd (ground arith))
stop_result_iff (serve_returns e) true = (λ h. ground arith, λ h. ground arith)
stop_result_iff (serve_returns e) false = (λ h. absurd (ground arith), λ h. absurd (ground arith))

check_health_iff : (o : Option ℕ) → (check_health o ≡ ok tt) ↔ (o ≡ some 200)
unfolding check_health
check_health_iff none = (λ h. absurd cc, λ h. absurd cc)
check_health_iff (some code) = (λ h. ground arith, λ h. ground arith)

run_engine_iff :
    (w : World) (c : NodeConfig) (g : Engine)
    → ((run_engine w c g).result ≡ ok tt)
      ↔ ((w.listens ≡ true) × StopsWell w.stop × (w.shuts_down ≡ true))
unfolding run_engine
run_engine_iff w c g = elim (Bool-cases w.listens) [
  | inl h ↦
      let served : (run_engine w c g).result ≡ stop_result w.stop w.shuts_down = rw h refl in
      (
        λ e.
            let (stops, down) = (stop_result_iff w.stop w.shuts_down).0 (sym served ∙ e) in
            (h, stops, down),
        λ (_, stops, down). served ∙ (stop_result_iff w.stop w.shuts_down).1 (stops, down),
      )
  | inr h ↦
      let refused : (run_engine w c g).result ≡ err port_in_use =
        ap (λ o. o.result) (run_engine-refused w c g h) in
      (λ e. absurd cc, λ (listens, _, _). absurd cc)
]

module _ (w : World) (c : NodeConfig) (disk : Disk) where
  run_started_iff :
      (r : Result Engine × Disk)
      → ((run_started w c r).result ≡ ok tt) ↔ (
          ((g : Engine) × (r.0 ≡ ok g))
          × (w.listens ≡ true)
          × StopsWell w.stop
          × (w.shuts_down ≡ true))
  unfolding run_started
  run_started_iff (err e, d) = (λ h. absurd cc, λ ((g, h), _, _, _). absurd cc)
  run_started_iff (ok g, d) = (
    λ h.
        let (listens, stops, down) = (run_engine_iff w c g).0 h in
        ((g, refl), listens, stops, down),
    λ (_, listens, stops, down). (run_engine_iff w c g).1 (listens, stops, down),
  )

  -- `Run` returns nil.
  abbrev pub Succeeds : Type 0
  Succeeds =
      ((c.healthcheck ≡ true) × (w.health ≡ some 200))
      ⊎ ((c.healthcheck ≡ false) × RunsWell w c disk)

  run_node_iff : ((run_node w c disk).result ≡ ok tt) ↔ Succeeds
  run_node_iff = elim (Bool-cases c.healthcheck) [
    | inl h ↦
        let result : (run_node w c disk).result ≡ check_health w.health =
          ap (λ o. o.result) (run_node-checks w c disk h) in
        (
          λ e. inl (h, (check_health_iff w.health).0 (sym result ∙ e)),
          λ s. elim s [
            | inl (_, well) ↦ result ∙ (check_health_iff w.health).1 well
            | inr (other, _) ↦ absurd cc
          ],
        )
    | inr h ↦
        let result : (run_node w c disk).result ≡ (run_started w c (start_engine w c disk)).result =
          ap (λ o. o.result) (run_node-starts w c disk h) in
        (
          λ e.
              let (starts, listens, stops, down) =
                (run_started_iff (start_engine w c disk)).0 (sym result ∙ e) in
              inr (
                h,
                record { starts = starts; listens = listens; stops = stops; shuts_down = down },
              ),
          λ s. elim s [
            | inl (other, _) ↦ absurd cc
            | inr (_, r) ↦
                result
                ∙ (run_started_iff (start_engine w c disk)).1
                    (r.starts, r.listens, r.stops, r.shuts_down)
          ],
        )
  ]

exit_code_iff : (r : Result (Unit {0})) → (exit_code r ≡ 0) ↔ (r ≡ ok tt)
exit_code_iff (err e) = (λ h. absurd (omega (arith, h)), λ h. absurd cc)
exit_code_iff (ok tt) = (λ h. refl, λ h. refl)

Succeeds-same :
    (c c' : NodeConfig)
    → c ≡ c'
    → {w : World} {disk : Disk} → Succeeds w c disk
    → Succeeds w c' disk
Succeeds-same c c' e {w} {disk} s = rw⁻¹ e s

help-is_help : (e : Error) → ◌≡◌ {A = ℕ} (if is_help e then 0 else 1) 0 → e ≡ help_requested
unfolding is_help
help-is_help help_requested h = refl
help-is_help _ h = absurd (omega (arith, h))

-- `Main` ends with status 0 exactly if the command line asks for help, or it is accepted and
-- either -healthcheck gets a 200, or the node starts, its port is free, it is stopped by a signal
-- or a closed server, and the shutdown is done in time.
pub main_node-zero_iff :
    (w : World) (args : List Bytes) (lookup : Bytes → Bytes) (disk : Disk)
    → ((main_node w args lookup disk).0 ≡ 0) ↔ (
        (parse_config w.parsers args lookup ≡ err help_requested)
        ⊎ ((c : NodeConfig) × (parse_config w.parsers args lookup ≡ ok c) × Succeeds w c disk))
unfolding main_node is_help
main_node-zero_iff w args lookup disk = elim (Result-cases (parse_config w.parsers args lookup)) [
  | inl (c, h) ↦
      rw (h, main_node)
        (
          λ e.
              inr (
                c,
                refl,
                (run_node_iff w c disk).0 ((exit_code_iff (run_node w c disk).result).0 e),
              ),
          λ s. elim s [
            | inl other ↦ absurd cc
            | inr (c', same, well) ↦
                (exit_code_iff (run_node w c disk).result).1 (
                  (run_node_iff w c disk).1
                    (let back : c' ≡ c = cc in Succeeds-same c' c back well))
          ],
        )
  | inr (e, h) ↦
      rw (h, main_node)
        (
          λ code. inl (ap err (help-is_help e code)),
          λ s. elim s [
            | inl same ↦ let asked : e ≡ help_requested = cc in rw asked refl
            | inr (c, other, _) ↦ absurd cc
          ],
        )
]
