-- ===== src/Controller/Client/History.antt =====
-- A client's secret over a history of reconciliations.
use frkr_operator.Base.{String, none, some, ◌≡◌, ◌≢◌, lookup, sym, ap, ◌∙◌}
use frkr_operator.Base.Go.{ok}
use frkr_operator.Api.Meta.{
  NamespacedName, ObjectKey, SecretData, Secret, reply, done, key_of, delay,
}
use frkr_operator.Api.Client.{FrkrClient}
use frkr_operator.Platform.{Platform}
use frkr_operator.Laws.Secrets.{SecretLaws}
use frkr_operator.Controller.Client.{ClientReconciler, secret_name, reconcile}
use frkr_operator.Controller.Client.Stability.{own_key, reconcile-keeps_value, reconcile_delayed}

module _ (P : Platform) (L : SecretLaws P) (r : ClientReconciler P) (req : NamespacedName) where
  abbrev pub secret_at : ObjectKey
  secret_at = record { namespace = req.namespace; name = secret_name req.name }

  -- What happens between two states: a reconciliation that ends well after a first look at the
  -- secret that succeeded; one that asks for a delay; or anything that leaves this secret alone.
  pub data Step : P.State → P.State → Type 0 where
    settled :
        (s : P.State) (crd : FrkrClient) (existing : Secret)
        → (P.clients.get req s).0 ≡ ok crd
        → key_of crd.meta ≡ req
        → crd.spec.secret ≡ ""
        → (P.secrets.get (own_key crd) (P.clients.get req s).1).0 ≡ ok existing
        → (reconcile P r req s).0 ≡ reply done none
        → Step s (reconcile P r req s).1
    delayed : (s : P.State) → delay (reconcile P r req s).0 ≢ 0 → Step s (reconcile P r req s).1
    elsewhere : (s t : P.State) → L.stored t secret_at ≡ L.stored s secret_at → Step s t

  pub data History (s : P.State) : P.State → Type 0 where
    here : History s s
    then_step : {t u : P.State} → History s t → Step t u → History s u

  abbrev pub Holds : String → P.State → Type 0
  Holds value s =
      (contents : SecretData) × (L.stored s secret_at ≡ some contents)
      × (lookup "clientSecret" contents ≡ some value)

  Step-Holds :
      (value : String) → value ≢ "" → {s t : P.State} → Step s t → Holds value s → Holds value t
  Step-Holds value given (settled s crd existing found keyed unset read ended)
        (contents, held, holds) =
      let same : own_key crd ≡ secret_at =
        ap (λ k. record { namespace = k.namespace; name = secret_name k.name }) keyed in
      let (left, stays, still) =
        reconcile-keeps_value P L r req s crd contents value existing found
          (ap (λ k. k.namespace) keyed) unset (ap (L.stored s) same ∙ held) holds given read
          ended in
      (left, ap (L.stored (reconcile P r req s).1) (sym same) ∙ stays, still)
  Step-Holds value given (delayed s h) (contents, held, holds) =
      (contents, ap (λ f. f secret_at) (reconcile_delayed P L r req s h).1 ∙ held, holds)
  Step-Holds value given (elsewhere s t kept) (contents, held, holds) =
      (contents, kept ∙ held, holds)

  -- For a client whose spec gives no secret: a value that is not empty, once it is in the stored
  -- secret, is there after every history, however long, of reconciliations that end with no error
  -- and no delay and whose first look at the secret succeeded, of reconciliations that ask for a
  -- delay, and of changes that leave this secret alone.
  pub History-Holds :
      (value : String) → value ≢ "" → {s t : P.State} → Holds value s → History s t → Holds value t
  History-Holds value given held here = held
  History-Holds value given held (then_step history step) =
      Step-Holds value given step (History-Holds value given held history)
