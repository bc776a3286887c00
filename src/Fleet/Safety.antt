-- ===== src/Fleet/Safety.antt =====
-- Runs of the programs and the times of the devices, and the requests to the API that read.
use io_t_fleet_management.Prelude.{refl, inl, inr, String, Option, ◌≡◌, ℕ, ◌∙◌}
use io_t_fleet_management.Prelude.Int.{ℤ}
use io_t_fleet_management.Go.Float.{Float64}
use io_t_fleet_management.Devices.Store.{telemetry_input, heartbeat_input}
use io_t_fleet_management.Ingestion.Keeps.{CallsKeep, handle_request-Keeps}
use io_t_fleet_management.Rules.Door.Keeps.{RoundKeeps, check_door_timeouts-Keeps}
use io_t_fleet_management.Api.Keeps.{ReadsKeep}
use io_t_fleet_management.Api.Keeps.Endpoints.{CommandKeeps, serve-Keeps}
use io_t_fleet_management.Api.Routes.{Endpoint, Request, commands}
use io_t_fleet_management.Fleet.{
  Deployment, Step, Run, ingest, check, answer, start, next, answering,
}
use io_t_fleet_management.Fleet.Seen.{
  SeenLaws, TablesDiffer, NoEarlier, FreshUpdate, fresh-Keeps, relaxed, relaxed-Keeps,
  NoEarlier-IsPreorder,
}
use io_t_fleet_management.Models.{Telemetry}

module _ {F W Item Raw : Type 0} ⦃d : Float64 F⦄ (fleet : Deployment F W Item Raw)
    (seen : W → String → Option ℤ) (laws : SeenLaws fleet seen) (differ : TablesDiffer fleet) where
  telemetry-IsFresh :
      (tel : Telemetry F) (now : ℤ) (payload : Raw)
      → FreshUpdate fleet.service.state_store.table_name
          (telemetry_input fleet.host fleet.db fleet.service.state_store tel now payload)
          tel.device_id
          tel.timestamp
  telemetry-IsFresh tel now payload = record {
    table = refl;
    condition = refl;
    expression = inl refl;
    key = refl;
    time = refl;
  }

  heartbeat-IsFresh :
      (device_id : String) (now : ℤ)
      → FreshUpdate fleet.service.state_store.table_name
          (heartbeat_input fleet.host fleet.db fleet.service.state_store device_id now)
          device_id
          now
  heartbeat-IsFresh device_id now = record {
    table = refl;
    condition = refl;
    expression = inr refl;
    key = refl;
    time = refl;
  }

  ingestion-CallsKeep : CallsKeep (NoEarlier seen) fleet.host fleet.db fleet.service
  ingestion-CallsKeep = record {
    clock = λ w. relaxed fleet seen w _ (laws.clock w);
    uuid = λ w. relaxed fleet seen w _ (laws.uuid w);
    wait = λ n w. relaxed fleet seen w _ (laws.wait n w);
    put_reading = λ item. relaxed-Keeps fleet seen _ (laws.put_item _ item differ.readings);
    put_alert = λ item. relaxed-Keeps fleet seen _ (laws.put_item _ item differ.alerts);
    put_alarm = λ item. relaxed-Keeps fleet seen _ (laws.put_item _ item differ.alarms);
    write_batch =
        λ items. relaxed-Keeps fleet seen _ (laws.batch_write_item _ items differ.readings);
    update_state = λ tel now payload.
        fresh-Keeps fleet seen laws differ _ tel.device_id tel.timestamp
          (telemetry-IsFresh tel now payload);
    update_seen = λ device_id now.
        fresh-Keeps fleet seen laws differ _ device_id now (heartbeat-IsFresh device_id now);
    send = λ client topic title body h.
        relaxed-Keeps fleet seen _ (laws.push client topic title body (inl h));
  }

  door-RoundKeeps : RoundKeeps (NoEarlier seen) fleet.host fleet.db fleet.engine
  door-RoundKeeps = record {
    clock = λ w. relaxed fleet seen w _ (laws.clock w);
    uuid = λ w. relaxed fleet seen w _ (laws.uuid w);
    scan = λ input. relaxed-Keeps fleet seen _ (laws.scan input);
    put_alarm = λ item. relaxed-Keeps fleet seen _ (laws.put_item _ item differ.door_alarms);
    send = λ client topic title body h.
        relaxed-Keeps fleet seen _ (laws.push client topic title body (inr h));
  }

  api-ReadsKeep : ReadsKeep (NoEarlier seen) fleet.host fleet.clock fleet.db fleet.handler
  api-ReadsKeep = record {
    second = λ w. relaxed fleet seen w _ (laws.clock w);
    nanoseconds = λ w. relaxed fleet seen w _ (laws.nanoseconds w);
    month = λ w. relaxed fleet seen w _ (laws.month w);
    scan = λ input. relaxed-Keeps fleet seen _ (laws.scan input);
    query = λ input. relaxed-Keeps fleet seen _ (laws.query input);
    get_item = λ name key. relaxed-Keeps fleet seen _ (laws.get_item name key);
    fetch = λ key. relaxed-Keeps fleet seen _ (laws.fetch key);
  }

  api-CommandKeeps : CommandKeeps (NoEarlier seen) fleet.db fleet.handler
  api-CommandKeeps = record {
    put = λ item. relaxed-Keeps fleet seen _ (laws.put_item _ item differ.commands);
    publish = λ topic payload qos. relaxed-Keeps fleet seen _ (laws.publish topic payload qos);
  }

  Step-NoEarlier : (w v : W) → Step fleet w v → NoEarlier seen w v
  Step-NoEarlier _ _ (ingest event w) =
      (handle_request-Keeps (NoEarlier seen) (NoEarlier-IsPreorder fleet seen) fleet.host fleet.db
          fleet.service ingestion-CallsKeep event).at
        w
  Step-NoEarlier _ _ (check schedule fuel w) =
      (check_door_timeouts-Keeps (NoEarlier seen) (NoEarlier-IsPreorder fleet seen) fleet.host
          fleet.db fleet.engine door-RoundKeeps schedule fuel).at
        w
  Step-NoEarlier _ _ (answer fuel endpoint request w) =
      (serve-Keeps (NoEarlier seen) (NoEarlier-IsPreorder fleet seen) fleet.host fleet.clock
          fleet.zone fleet.db fleet.handler api-ReadsKeep fleet.visit fleet.sort_slice fuel endpoint
          request (λ e. api-CommandKeeps)).at
        w

  -- No run of the programs sets back the time at which a device was last seen: for tables with
  -- different names, and services that do what the laws say of a conditional update and of the
  -- other calls, a device that has a time at the start of a run has that time or a later one at
  -- the end of it, whatever messages, checks of the doors and requests to the API the run consists
  -- of, and however each of them ends.
  pub Run-NoEarlier : (w v : W) → Run fleet w v → NoEarlier seen w v
  Run-NoEarlier _ _ (start w) = (NoEarlier-IsPreorder fleet seen).same w
  Run-NoEarlier _ _ (next u v w run step) =
      (NoEarlier-IsPreorder fleet seen).chain u v w (Run-NoEarlier u v run)
        (Step-NoEarlier v w step)

-- An API request for anything but a command changes nothing of the tables, whatever its answer, if
-- the calls that read change nothing of them.
pub tables-answering :
    {F W Item Raw T : Type 0} ⦃d : Float64 F⦄ (fleet : Deployment F W Item Raw) (tables : W → T)
    → ReadsKeep (λ w v. tables w ≡ tables v) fleet.host fleet.clock fleet.db fleet.handler
    → (fuel : ℕ) (endpoint : Endpoint) (request : Request F) (w : W) → ¬ endpoint ≡ commands
    → tables w ≡ tables (answering fleet fuel endpoint request w)
tables-answering fleet tables calls fuel endpoint request w h =
    (serve-Keeps (λ w v. tables w ≡ tables v)
        (record { same = λ w. refl; chain = λ u v w p q. p ∙ q }) fleet.host fleet.clock fleet.zone
        fleet.db fleet.handler calls fleet.visit fleet.sort_slice fuel endpoint request
        (λ e. absurd (h e))).at
      w
