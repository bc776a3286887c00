-- ===== src/Rules/Door/Threads/Records.antt =====
-- door_rules.go: what a round's calls record, and what its goroutines have got to do with it.
use io_t_fleet_management.Prelude.{
  [], ◌∷◌, ◌++◌, List, String, ℕ, ◌+◌, ◌≡◌, if◌then◌else◌, Bool, arith,
}
use io_t_fleet_management.Go.Outcome.{ok, returned, failed, Error}
use io_t_fleet_management.Go.Ends.{Calm}
use io_t_fleet_management.Go.Float.{Float64}
use io_t_fleet_management.Cloud.{Host, Dynamo, Messaging}
use io_t_fleet_management.Rules.{AlertEngine}
use io_t_fleet_management.Rules.Door.{DoorAlert}
use io_t_fleet_management.Rules.Door.Threads.{
  pushing, finished, refused, crashed, Goroutine, alert_with,
}
use io_t_fleet_management.Prelude.Int.{ℤ}

-- The device, the severity and the description of an alert.
abbrev pub Notice : Type 0
Notice = String × String × String

abbrev pub notice_of : DoorAlert → Notice
notice_of a = (a.device_id, a.severity, a.description)

-- A goroutine's alert if the call that stores it has returned without an error, if its message has
-- been handed to the messaging, and if storing it ended in an error.
abbrev pub confirmed_by : Goroutine → List DoorAlert
confirmed_by (a, pushing) = a ∷ []
confirmed_by (a, finished) = a ∷ []
confirmed_by (a, crashed) = a ∷ []
confirmed_by _ = []

abbrev pub handed_by : Goroutine → List DoorAlert
handed_by (a, finished) = a ∷ []
handed_by _ = []

abbrev pub refused_by : Goroutine → List DoorAlert
refused_by (a, refused) = a ∷ []
refused_by _ = []

abbrev pub alert_of_goroutine : Goroutine → List DoorAlert
alert_of_goroutine (a, stage) = a ∷ []

abbrev pub each : (Goroutine → List DoorAlert) → List (Goroutine) → List DoorAlert
each f [] = []
each f (g ∷ gs) = f g ++ each f gs

-- How many elements pass a test.
abbrev pub count : {A : Type 0} → (A → Bool) → List A → ℕ
count p [] = 0
count p (x ∷ xs) = (if p x then 1 else 0) + count p xs

pub count-append :
    {A : Type 0} (p : A → Bool) (xs ys : List A) → count p (xs ++ ys) ≡ count p xs + count p ys
count-append p [] ys = omega arith
count-append p (x ∷ xs) ys = omega (arith, count-append p xs ys)

-- Two logs of calls: `confirmed` has the items whose `PutItem` returned without an error, and `handed`
-- the messages that `Send` was called with, whether they were delivered or not. `notice` reads an
-- item. Neither call panics.
pub record RecordsRound {F W Item Raw : Type 0} ⦃d : Float64 F⦄ (host : Host W)
    (db : Dynamo F W Item Raw) (engine : AlertEngine W) (client : Messaging W)
    (notice : Item → Notice) (confirmed handed : W → List Notice) : Type 0 where
  pub clock_confirmed : (w : W) → confirmed (host.clock w).1 ≡ confirmed w
  pub clock_handed : (w : W) → handed (host.clock w).1 ≡ handed w
  pub uuid_confirmed : (w : W) → confirmed (host.uuid w).1 ≡ confirmed w
  pub uuid_handed : (w : W) → handed (host.uuid w).1 ≡ handed w
  pub encodes :
      (now expires_at : ℤ) (id : String) (a : DoorAlert) (item : Item)
      → db.marshal_alert (alert_with host db engine a now id expires_at) ≡ ok item
      → notice item ≡ notice_of a
  pub put_confirmed :
      (item : Item) (w w' : W)
      → db.put_item engine.alert_store.table_name item w ≡ (returned tt, w')
      → confirmed w' ≡ notice item ∷ confirmed w
  pub put_failed :
      (item : Item) (e : Error) (w w' : W)
      → db.put_item engine.alert_store.table_name item w ≡ (failed e, w')
      → confirmed w' ≡ confirmed w
  pub put_handed :
      (item : Item) (w : W) → handed (db.put_item engine.alert_store.table_name item w).1 ≡ handed w
  pub put_calm : (item : Item) → Calm (db.put_item engine.alert_store.table_name item)
  pub send_handed :
      (topic title body : String) (w : W)
      → handed (client.send topic title body w).1 ≡ (topic, title, body) ∷ handed w
  pub send_confirmed :
      (topic title body : String) (w : W)
      → confirmed (client.send topic title body w).1 ≡ confirmed w
  pub send_calm : (topic title body : String) → Calm (client.send topic title body)

pub each-append :
    (f : Goroutine → List DoorAlert) (p : DoorAlert → Bool) (xs ys : List (Goroutine))
    → count p (each f (xs ++ ys)) ≡ count p (each f xs) + count p (each f ys)
each-append f p [] ys = omega arith
each-append f p (g ∷ gs) ys = omega (
  arith,
  each-append f p gs ys,
  count-append p (f g) (each f gs),
  count-append p (f g) (each f (gs ++ ys)),
)
