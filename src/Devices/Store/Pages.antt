-- ===== src/Devices/Store/Pages.antt =====
-- store_state.go: the loop of `GetAllStates` over the pages of a scan.
use io_t_fleet_management.Prelude.{
  [], ◌∷◌, refl, some, none, zero, suc, length, ◌≡◌, ◌++◌, ◌≤◌, arith, ap, ◌∙◌, append-nil,
  append_assoc, subst, sym, inl, inr,
}
use io_t_fleet_management.Go.Outcome.{returned, Error, Result-cases}
use io_t_fleet_management.Cloud.{Host, Dynamo, ScanPage}
use io_t_fleet_management.Devices.Store.{
  StateStore, List, Option, get_all_states, scan_pages, DeviceState, page_input, ℕ, decoded_states,
  Float64, Action, pure, ok, err,
}
use io_t_fleet_management.Go.Steps.{annotate-of-returned, continued}

module _ {F W Item Raw : Type 0} ⦃d : Float64 F⦄ (host : Host W) (db : Dynamo F W Item Raw)
    (store : StateStore) where
  -- The scan of the table from a start key, in a world, serves these pages: each call returns the
  -- next one, with the key of the page after it as long as there is one.
  pub data Serves : Option Item → W → List (List Item) → W → Type 0 where
    last :
        {start : Option Item} {w w' : W} {items : List Item}
        → db.scan (page_input host db store start) w
          ≡ (returned (record { items = items; last_evaluated_key = none }), w')
        → Serves start w (items ∷ []) w'
    next :
        {start : Option Item} {w v w' : W} {items : List Item} {key : Item}
        {pages : List (List Item)}
        → db.scan (page_input host db store start) w
          ≡ (returned (record { items = items; last_evaluated_key = some key }), v)
        → Serves (some key) v pages w'
        → Serves start w (items ∷ pages) w'

  -- The states that some items decode to: an item that decodes stands for its state, and one that
  -- does not is left out.
  pub data Decodes : List Item → List (DeviceState F) → Type 0 where
    none_left : Decodes [] []
    kept :
        {item : Item} {state : DeviceState F} {items : List Item} {states : List (DeviceState F)}
        → db.unmarshal_state item ≡ ok state
        → Decodes items states
        → Decodes (item ∷ items) (state ∷ states)
    left_out :
        {item : Item} {e : Error} {items : List Item} {states : List (DeviceState F)}
        → db.unmarshal_state item ≡ err e
        → Decodes items states
        → Decodes (item ∷ items) states

  decoded_states-Decodes : (items : List Item) → Decodes items (decoded_states host db store items)
  decoded_states-Decodes [] = none_left
  decoded_states-Decodes (item ∷ items) =
      let rest = decoded_states-Decodes items in
      elim (Result-cases (db.unmarshal_state item)) [
        | inl (state, h) ↦ rw (decoded_states, h) (kept h rest)
        | inr (e, h) ↦ rw (decoded_states, h) (left_out h rest)
      ]

  decoded_states-append :
      (xs ys : List Item)
      → decoded_states host db store (xs ++ ys)
        ≡ decoded_states host db store xs ++ decoded_states host db store ys
  decoded_states-append [] ys = refl
  decoded_states-append (x ∷ xs) ys =
      let rest = decoded_states-append xs ys in
      elim (Result-cases (db.unmarshal_state x)) [
        | inl (state, h) ↦ rw (decoded_states, h, rest) refl
        | inr (e, h) ↦ rw (decoded_states, h, rest) refl
      ]

  -- The items of all pages.
  abbrev pub all_items : List (List Item) → List Item
  all_items [] = []
  all_items (items ∷ pages) = items ++ all_items pages

  unfoldable all_decoded : List (List Item) → List (DeviceState F)
  all_decoded [] = []
  all_decoded (items ∷ pages) = decoded_states host db store items ++ all_decoded pages

  all_decoded_lem :
      (pages : List (List Item))
      → all_decoded pages ≡ decoded_states host db store (all_items pages)
  unfolding all_decoded
  all_decoded_lem [] = refl
  all_decoded_lem (items ∷ pages) =
      ap (λ s. decoded_states host db store items ++ s) (all_decoded_lem pages)
      ∙ sym (decoded_states-append items (all_items pages))

  page_step : ℕ → List (DeviceState F) → ScanPage Item → Action W (Option (List (DeviceState F)))
  page_step fuel states page =
      let states' = states ++ decoded_states host db store page.items in
      elim page.last_evaluated_key [
        | none ↦ pure (some states')
        | some key ↦ scan_pages host db store fuel (some key) states'
      ]

  scan_pages_lem :
      (fuel : ℕ) (start : Option Item) (states : List (DeviceState F)) (w w' : W)
      (pages : List (List Item))
      → Serves start w pages w'
      → length pages ≤ fuel
      → scan_pages host db store fuel start states w
        ≡ (returned (some (states ++ all_decoded pages)), w')
  unfolding scan_pages all_decoded page_step
  scan_pages_lem zero start states w w' _ (last h) le = absurd (ground arith)
  scan_pages_lem zero start states w w' _ (next h s) le = absurd (ground arith)
  scan_pages_lem (suc fuel) start states w w' _ (last {items = items} h) le =
      let scanned =
        annotate-of-returned "failed to scan device states"
          (db.scan (page_input host db store start)) w w' _ h in
      ap (continued (λ page. page_step fuel states page)) scanned ∙ rw append-nil refl
  scan_pages_lem (suc fuel) start states w w' _
        (next {v = v} {items = items} {key = key} {pages = pages} h s) le =
      let scanned =
        annotate-of-returned "failed to scan device states"
          (db.scan (page_input host db store start)) w v _ h in
      let rest =
        scan_pages_lem fuel (some key) (states ++ decoded_states host db store items) v w' pages s
          (ground arith) in
      ap (continued (λ page. page_step fuel states page)) scanned ∙ rest ∙ rw append_assoc refl

  -- If the scan serves these pages, as many as the fuel or fewer, all states come back: those of every
  -- item of every page that decodes, in the order of the pages, and none for the items that do not.
  pub get_all_states_lem :
      (fuel : ℕ) (w w' : W) (pages : List (List Item))
      → Serves none w pages w'
      → length pages ≤ fuel
      → (states : List (DeviceState F)) × (get_all_states host db store fuel w
          ≡ (returned (some states), w'))
        × Decodes (all_items pages) states
  unfolding get_all_states
  get_all_states_lem fuel w w' pages s le = (
    all_decoded pages,
    scan_pages_lem fuel none [] w w' pages s le,
    subst (Decodes (all_items pages)) (sym (all_decoded_lem pages))
        (decoded_states-Decodes (all_items pages)),
  )
