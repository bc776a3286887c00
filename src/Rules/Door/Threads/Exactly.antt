-- ===== src/Rules/Door/Threads/Exactly.antt =====
-- door_rules.go: the calls that a round has made, however its goroutines are interleaved.
use io_t_fleet_management.Prelude.{
  [], ◌∷◌, ◌++◌, List, String, ◌+◌, ◌≡◌, ap, refl, Bool, All, arith, some, sym, ◌∙◌,
}
use io_t_fleet_management.Go.Outcome.{ok, err, Outcome, returned, failed, panicked, Result}
use io_t_fleet_management.Go.Ends.{Settled, by_value, by_error}
use io_t_fleet_management.Go.Float.{Float64}
use io_t_fleet_management.Cloud.{Host, Dynamo, Messaging}
use io_t_fleet_management.Rules.{AlertEngine}
use io_t_fleet_management.Rules.Door.{DoorAlert}
use io_t_fleet_management.Rules.Door.Threads.{
  Stage, called, stamped, named, dated, pushing, finished, refused, crashed, Goroutine, after_store,
  after_send, IsDone, Round, advance, Step, spawn, move, Steps, start, next, alert_with,
}
use io_t_fleet_management.Prelude.Int.{ℤ}
use io_t_fleet_management.Rules.Door.Threads.Records.{
  Notice, notice_of, RecordsRound, count, count-append, each, each-append, confirmed_by, handed_by,
  refused_by, alert_of_goroutine,
}

module _ {F W Item Raw : Type 0} ⦃d : Float64 F⦄ (host : Host W) (db : Dynamo F W Item Raw)
    (engine : AlertEngine W) (client : Messaging W) (notice : Item → Notice)
    (confirmed handed : W → List Notice)
    (records : RecordsRound host db engine client notice confirmed handed)
    (notified : engine.notifier ≡ some client) (p : Notice → Bool) where
  abbrev passes : DoorAlert → Bool
  passes a = p (notice_of a)

  -- How far a goroutine's progress and the world agree, for what passes the test.
  abbrev Agree :
      (W → List Notice) → (Goroutine → List DoorAlert) → Goroutine → W → Stage × W → Type 0
  Agree seen by (a, stage) w (stage', w') =
      count p (seen w') + count passes (by (a, stage))
      ≡ count p (seen w) + count passes (by (a, stage'))

  put-Agree :
      (a : DoorAlert) (now : ℤ) (id : String) (expires_at : ℤ) (item : Item) (w : W)
      → db.marshal_alert (alert_with host db engine a now id expires_at) ≡ ok item
      → (r : Outcome (Unit {0})) (w' : W)
      → db.put_item engine.alert_store.table_name item w ≡ (r, w')
      → Settled r
      → (count p (confirmed w')
          ≡ count p (confirmed w) + count passes (confirmed_by (a, after_store r)))
        × (count p (handed w') ≡ count p (handed w) + count passes (handed_by (a, after_store r)))
  put-Agree a now id expires_at item w h (returned _) w' e (by_value _) =
      let f : confirmed w' ≡ notice_of a ∷ confirmed w =
        records.put_confirmed item w w' e
        ∙ ap (λ n. n ∷ confirmed w) (records.encodes now expires_at id a item h) in
      let g : handed w' ≡ handed w = ap (λ r. handed r.1) (sym e) ∙ records.put_handed item w in
      (rw f (omega arith), rw g (omega arith))
  put-Agree a now id expires_at item w h (failed x) w' e (by_error _) =
      let f : confirmed w' ≡ confirmed w = records.put_failed item x w w' e in
      let g : handed w' ≡ handed w = ap (λ r. handed r.1) (sym e) ∙ records.put_handed item w in
      (rw f (omega arith), rw g (omega arith))
  put-Agree a now id expires_at item w h panicked w' e n = elim n [ ]

  send-Agree :
      (a : DoorAlert) (w : W) (r : Outcome String) (w' : W)
      → client.send a.device_id a.severity a.description w ≡ (r, w')
      → Settled r
      → Agree confirmed confirmed_by (a, pushing) w (after_send r, w')
        × Agree handed handed_by (a, pushing) w (after_send r, w')
  send-Agree a w (returned _) w' e (by_value _) =
      let f : confirmed w' ≡ confirmed w =
        ap (λ x. confirmed x.1) (sym e)
        ∙ records.send_confirmed a.device_id a.severity a.description w in
      let g : handed w' ≡ notice_of a ∷ handed w =
        ap (λ x. handed x.1) (sym e) ∙ records.send_handed a.device_id a.severity a.description w in
      (rw f refl, rw g (omega arith))
  send-Agree a w (failed _) w' e (by_error _) =
      let f : confirmed w' ≡ confirmed w =
        ap (λ x. confirmed x.1) (sym e)
        ∙ records.send_confirmed a.device_id a.severity a.description w in
      let g : handed w' ≡ notice_of a ∷ handed w =
        ap (λ x. handed x.1) (sym e) ∙ records.send_handed a.device_id a.severity a.description w in
      (rw f refl, rw g (omega arith))
  send-Agree a w panicked w' e n = elim n [ ]

  dated-Agree :
      (a : DoorAlert) (now : ℤ) (id : String) (expires_at : ℤ) (w : W) (m : Result Item)
      → db.marshal_alert (alert_with host db engine a now id expires_at) ≡ m
      → (next_stage : Stage × W)
      → next_stage ≡ elim m as (λ _. Stage × W) [
        | err _ ↦ (refused, w)
        | ok item ↦
            let (r, w') = db.put_item engine.alert_store.table_name item w in (after_store r, w')
      ]
      → Agree confirmed confirmed_by (a, dated now id expires_at) w next_stage
        × Agree handed handed_by (a, dated now id expires_at) w next_stage
  dated-Agree a now id expires_at w (err x) h s e = rw e (refl, refl)
  dated-Agree a now id expires_at w (ok item) h s e =
      let put = db.put_item engine.alert_store.table_name item w in
      let r =
        put-Agree a now id expires_at item w h put.0 put.1 refl ((records.put_calm item).at w) in
      rw e (omega (arith, r.0), omega (arith, r.1))

  -- One step of a goroutine.
  advance-Agree :
      (a : DoorAlert) (stage : Stage) (w : W)
      → Agree confirmed confirmed_by (a, stage) w (advance host db engine a stage w)
        × Agree handed handed_by (a, stage) w (advance host db engine a stage w)
  unfolding advance
  advance-Agree a called w = (rw (records.clock_confirmed w), rw (records.clock_handed w))
  advance-Agree a (stamped now) w = (rw (records.uuid_confirmed w), rw (records.uuid_handed w))
  advance-Agree a (named now id) w = (rw (records.clock_confirmed w), rw (records.clock_handed w))
  advance-Agree a (dated now id expires_at) w =
      dated-Agree a now id expires_at w
        (db.marshal_alert (alert_with host db engine a now id expires_at)) refl
        (advance host db engine a (dated now id expires_at) w) refl
  advance-Agree a pushing w =
      let sending = client.send a.device_id a.severity a.description w in
      rw notified (
        send-Agree a w sending.0 sending.1 refl
          ((records.send_calm a.device_id a.severity a.description).at w))
  advance-Agree a finished w = (refl, refl)
  advance-Agree a refused w = (refl, refl)
  advance-Agree a crashed w = (refl, refl)

  -- What the logs hold, and what the goroutines have got to do with it, from one state of
  -- the round to another.
  pub record Balance (r s : Round W) : Type 0 where
    pub storing :
        count p (confirmed s.world) + count passes (each confirmed_by r.goroutines)
        ≡ count p (confirmed r.world) + count passes (each confirmed_by s.goroutines)
    pub sending :
        count p (handed s.world) + count passes (each handed_by r.goroutines)
        ≡ count p (handed r.world) + count passes (each handed_by s.goroutines)
    pub alerts :
        count passes r.waiting + count passes (each alert_of_goroutine r.goroutines)
        ≡ count passes s.waiting + count passes (each alert_of_goroutine s.goroutines)

  -- One goroutine among the others.
  among :
      (seen : W → List Notice) (by : Goroutine → List DoorAlert) (before after : List Goroutine)
      (a : DoorAlert) (stage : Stage) (w : W) (n : Stage × W)
      → Agree seen by (a, stage) w n
      → count p (seen n.1) + count passes (each by (before ++ ((a, stage) ∷ after)))
        ≡ count p (seen w) + count passes (each by (before ++ ((a, n.0) ∷ after)))
  among seen by before after a stage w n h = omega (
    arith,
    h,
    each-append by passes before ((a, stage) ∷ after),
    each-append by passes before ((a, n.0) ∷ after),
    count-append passes (by (a, stage)) (each by after),
    count-append passes (by (a, n.0)) (each by after),
  )

  Step-Balance : (r s : Round W) → Step host db engine r s → Balance r s
  Step-Balance _ _ (spawn a waiting goroutines w) = record {
    storing = refl;
    sending = refl;
    alerts = omega arith;
  }
  Step-Balance _ _ (move waiting before after a stage w) =
      let agree = advance-Agree a stage w in
      let next_stage = advance host db engine a stage w in
      record {
        storing = among confirmed confirmed_by before after a stage w next_stage agree.0;
        sending = among handed handed_by before after a stage w next_stage agree.1;
        alerts = omega (
          arith,
          each-append alert_of_goroutine passes before ((a, stage) ∷ after),
          each-append alert_of_goroutine passes before ((a, next_stage.0) ∷ after),
        );
      }

  Steps-Balance : (r s : Round W) → Steps host db engine r s → Balance r s
  Steps-Balance _ _ (start r) = record { storing = refl; sending = refl; alerts = refl }
  Steps-Balance _ _ (next r s t step steps) =
      let x = Step-Balance r s step in
      let y = Steps-Balance s t steps in
      record {
        storing = omega (arith, x.storing, y.storing);
        sending = omega (arith, x.sending, y.sending);
        alerts = omega (arith, x.alerts, y.alerts);
      }

  -- A goroutine that is done has handed over what was confirmed, and has been refused otherwise.
  one_done :
      (g : Goroutine)
      → IsDone g
      → (confirmed_by g ≡ handed_by g)
        × (count passes (alert_of_goroutine g)
            ≡ count passes (handed_by g) + count passes (refused_by g))
  one_done (a, finished) h = (refl, omega arith)
  one_done (a, refused) h = (refl, omega arith)
  one_done (a, called) h = elim h [ ]
  one_done (a, stamped _) h = elim h [ ]
  one_done (a, named _ _) h = elim h [ ]
  one_done (a, dated _ _ _) h = elim h [ ]
  one_done (a, pushing) h = elim h [ ]
  one_done (a, crashed) h = elim h [ ]

  done_sums :
      (gs : List Goroutine)
      → All IsDone gs
      → (each confirmed_by gs ≡ each handed_by gs)
        × (count passes (each alert_of_goroutine gs)
            ≡ count passes (each handed_by gs) + count passes (each refused_by gs))
  done_sums [] h = (refl, refl)
  done_sums (g ∷ gs) (h, hs) =
      let (same, sum) = one_done g h in
      let (sames, sums) = done_sums gs hs in
      (
        rw (same, sames),
        omega (
          arith,
          sum,
          sums,
          count-append passes (alert_of_goroutine g) (each alert_of_goroutine gs),
          count-append passes (handed_by g) (each handed_by gs),
          count-append passes (refused_by g) (each refused_by gs),
        ),
      )

  -- With a notifier, and calls that obey `RecordsRound`: however the goroutines of a round are
  -- interleaved with each other and with the loop that starts them, when all are done the alerts that
  -- pass a test have been stored as often as they have been sent, by the goroutines that have
  -- finished; the others have been refused, and each alert is one or the other.
  pub Steps-exactly :
      (alerts : List DoorAlert) (goroutines : List Goroutine) (w w' : W)
      → Steps host db engine
          (record { waiting = alerts; goroutines = []; world = w })
          (record { waiting = []; goroutines = goroutines; world = w' })
      → All IsDone goroutines
      → (count p (confirmed w') ≡ count p (confirmed w) + count passes (each handed_by goroutines))
        × (count p (handed w') ≡ count p (handed w) + count passes (each handed_by goroutines))
        × (count passes alerts
            ≡ count passes (each handed_by goroutines) + count passes (each refused_by goroutines))
  Steps-exactly alerts goroutines w w' steps done =
      let b = Steps-Balance _ _ steps in
      let (same, sum) = done_sums goroutines done in
      let stores = b.storing in
      (rw (← same) (omega (arith, stores)), omega (arith, b.sending), omega (arith, b.alerts, sum))
