-- ===== src/Http/Bulk/Results.antt =====
-- What the bulk requests do with each of their ids.
use mock_my_mta.Base.{
  Text, ◌≡◌, refl, ap, ap₂, ◌∙◌, sym, List, [], ◌∷◌, ◌++◌, Option, none, some, Outcome, ok, err,
  Error,
}
use mathlib.Core.List.{append_assoc, append-nil}
use mock_my_mta.Smtp.{Relay, Delivery}
use mock_my_mta.Http.Server.{Services, BulkResult}
use mock_my_mta.Http.Bulk.{
  RelayRequest, no_results, succeed, fail, delete_each, relay_each, relay_email,
}

-- The ids by their outcome, and all of them as a result.
abbrev pub by_outcome : List (Text × Option Error) → BulkResult
by_outcome [] = no_results
by_outcome ((id, none) ∷ os) = let r = by_outcome os in record r { succeeded = id ∷ r.succeeded }
by_outcome ((id, some e) ∷ os) = let r = by_outcome os in record r { failures = id ∷ r.failures }

abbrev both : BulkResult → BulkResult → BulkResult
both r q = record { succeeded = r.succeeded ++ q.succeeded; failures = r.failures ++ q.failures }

step_outcome : Text → Option Error → BulkResult → BulkResult
step_outcome id none r = succeed id r
step_outcome id (some e) r = fail id r

step-both :
    (id : Text) (error : Option Error) (r : BulkResult) (os : List (Text × Option Error))
    → both (elim error [ none ↦ succeed id r | some e ↦ fail id r ]) (by_outcome os)
      ≡ both r (by_outcome ((id, error) ∷ os))
step-both id none r os =
    ap (λ s. record { succeeded = s; failures = r.failures ++ (by_outcome os).failures })
      (append_assoc r.succeeded (id ∷ []) (by_outcome os).succeeded)
step-both id (some e) r os =
    ap (λ f. record { succeeded = r.succeeded ++ (by_outcome os).succeeded; failures = f })
      (append_assoc r.failures (id ∷ []) (by_outcome os).failures)

module _ {S : Type 0} (env : Services S) where
  -- The deletes of some ids, one behind the other, with the error of each.
  unfoldable pub deletes : List Text → S → S × List (Text × Option Error)
  deletes [] store = (store, [])
  deletes (id ∷ ids) store =
      let (store', error) = env.storage.delete_email_by_id store id in
      let (end, os) = deletes ids store' in (end, (id, error) ∷ os)

  both-no_results : (r : BulkResult) → both r no_results ≡ r
  both-no_results r =
      ap₂ (λ s f. record { succeeded = s; failures = f }) (append-nil r.succeeded)
        (append-nil r.failures)

  delete_each-deletes :
      (ids : List Text) (store : S) (r : BulkResult)
      → delete_each env ids store r
        ≡ ((deletes ids store).0, both r (by_outcome (deletes ids store).1))
  unfolding delete_each deletes
  delete_each-deletes [] store r = ap (λ q. (store, q)) (sym (both-no_results r))
  delete_each-deletes (id ∷ ids) store r =
      let (store', error) = env.storage.delete_email_by_id store id in
      let r' : BulkResult = elim error [ none ↦ succeed id r | some e ↦ fail id r ] in
      delete_each-deletes ids store' r'
      ∙ ap (λ q. ((deletes ids store').0, q)) (step-both id error r (deletes ids store').1)

  -- A bulk delete asks the storage for every id, in their order and also after an error, and
  -- answers with the ids that were deleted and those that were not, each in their order.
  pub delete_each-by_outcome :
      (ids : List Text) (store : S)
      → delete_each env ids store no_results
        ≡ ((deletes ids store).0, by_outcome (deletes ids store).1)
  delete_each-by_outcome ids store = delete_each-deletes ids store no_results

  module _ (config : Relay) (request : RelayRequest) (store : S) where
    -- What becomes of one id: the mail that is sent for it, and its error.
    abbrev relayed : Outcome Text → List Delivery × Option Error
    relayed (err e) = ([], some e)
    relayed (ok raw_email) = relay_email env config request raw_email

    abbrev pub attempt : Text → List Delivery × Option Error
    attempt id = relayed (env.storage.get_raw_email store id)

    abbrev pub outcomes : List Text → List (Text × Option Error)
    outcomes [] = []
    outcomes (id ∷ ids) = (id, (attempt id).1) ∷ outcomes ids

    abbrev pub mails : List Text → List Delivery
    mails [] = []
    mails (id ∷ ids) = (attempt id).0 ++ mails ids

    tried :
        (id : Text) (ids : List Text) (r : BulkResult) (sent : List Delivery) (o : Outcome Text)
        → (elim o as (λ _. BulkResult × List Delivery) [
          | err e ↦ relay_each env config request store ids (fail id r) sent
          | ok raw_email ↦
              let (sends, error) = relay_email env config request raw_email in
              relay_each env config request store ids
                (elim error [ none ↦ succeed id r | some e ↦ fail id r ])
                (sent ++ sends)
        ])
          ≡ relay_each env config request store ids
              (elim (relayed o).1 [ none ↦ succeed id r | some e ↦ fail id r ])
              (sent ++ (relayed o).0)
    tried id ids r sent (err e) =
        ap (relay_each env config request store ids (fail id r)) (sym (append-nil sent))
    tried id ids r sent (ok raw_email) = refl

    relay_each-both :
        (ids : List Text) (r : BulkResult) (sent : List Delivery)
        → relay_each env config request store ids r sent
          ≡ (both r (by_outcome (outcomes ids)), sent ++ mails ids)
    unfolding relay_each
    relay_each-both [] r sent =
        ap₂ (λ q m. (q, m)) (sym (both-no_results r)) (sym (append-nil sent))
    relay_each-both (id ∷ ids) r sent =
        let (sends, error) = attempt id in
        let r' : BulkResult = elim error [ none ↦ succeed id r | some e ↦ fail id r ] in
        tried id ids r sent (env.storage.get_raw_email store id)
        ∙ relay_each-both ids r' (sent ++ sends)
        ∙ ap₂ (λ q m. (q, m)) (step-both id error r (outcomes ids))
            (append_assoc sent sends (mails ids))

    -- A bulk relay tries every id, in their order and also after an error: it sends the mails that
    -- the single requests would send, and answers with the ids that were relayed and those that
    -- were not, each in their order.
    pub relay_each-by_outcome :
        (ids : List Text)
        → relay_each env config request store ids no_results []
          ≡ (by_outcome (outcomes ids), mails ids)
    relay_each-by_outcome ids = relay_each-both ids no_results []
