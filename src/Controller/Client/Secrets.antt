-- ===== src/Controller/Client/Secrets.antt =====
-- What a reconciliation of a client leaves in the client's secret.
use frkr_operator.Base.{
  String, true, Option, none, some, ◌≡◌, refl, ◌≢◌, ◌⊎◌, inl, inr, arith, Bool-cases,
}
use frkr_operator.Base.Keeps.{Keeps, keeps_rules}
use frkr_operator.Base.Go.{
  Error, message, ok, next, returned, Outcome-cases, Flow-cases, landed, ◌>>=◌,
}
use frkr_operator.Base.Text.{contains}
use frkr_operator.Api.Meta.{
  NamespacedName, ObjectKey, Secret, Verdict, reply, done, key_of, failed, delay,
}
use frkr_operator.Api.Client.{FrkrClient}
use frkr_operator.Platform.{Platform}
use frkr_operator.Laws.Secrets.{SecretLaws}
use frkr_operator.Infra.Database.{Db, ensure_client}
use frkr_operator.Infra.Database.Spares.{Keeps-ensure_client}
use frkr_operator.Controller.Client.{
  ClientReconciler, secret_name, credentials, stream_ref, client_error, persist, apply_secret,
  client_secret_object, provision,
}

module _ (P : Platform) where
  pub apply_secret-failed :
      (secret : Secret) (s : P.State) (v : Verdict)
      → (apply_secret P secret s).0 ≡ returned v
      → (failed v ≡ true) × (delay v ≡ 0)
  unfolding apply_secret ◌>>=◌
  apply_secret-failed secret s v h = ground arith

  -- What an answer that asks for a delay says.
  abbrev pub IsDependencyMissing : Verdict → Type 0
  IsDependencyMissing (reply result (some e)) = contains (message e) "does not exist" ≡ true
  IsDependencyMissing _ = ⊥

  pub client_error_lem :
      (e : Error)
      → (failed (client_error P e) ≡ true)
        × (delay (client_error P e) ≢ 0 → IsDependencyMissing (client_error P e))
  unfolding client_error
  client_error_lem e = elim (Bool-cases (contains (message e) "does not exist")) [
    | inl c ↦ rw c (refl, λ h. c)
    | inr c ↦ rw c (refl, λ h. absurd (h refl))
  ]

  pub persist-returned :
      (db : Option (Db P)) (crd : FrkrClient) (secret : String) (s : P.State) (v : Verdict)
      → (persist P db crd secret s).0 ≡ returned v
      → (e : Error) × (v ≡ client_error P e)
  unfolding persist ◌>>=◌
  persist-returned none crd secret s v h = absurd (ground arith)
  persist-returned (some db) crd secret s v h =
      elim (Outcome-cases
        (ensure_client P db crd.spec.tenant_id crd.spec.client_id secret
          (stream_ref crd.spec.stream_id) s).0) [
            | inl (row, e) ↦ absurd (ground arith)
            | inr (err, e) ↦ (err, ground arith)
          ]

  pub persist-next :
      (db : Option (Db P)) (crd persisted : FrkrClient) (secret : String) (s : P.State)
      → (persist P db crd secret s).0 ≡ next persisted
      → (persisted.meta ≡ crd.meta) × (persisted.spec ≡ crd.spec)
  unfolding persist ◌>>=◌
  persist-next none crd persisted secret s h = ground arith
  persist-next (some db) crd persisted secret s h = ground arith

  -- The calls of a run that ended well: each has succeeded, and the status update was the last.
  pub provision-inv :
      (r : ClientReconciler P) (req : NamespacedName) (chosen : FrkrClient) (value : String)
      (s : P.State)
      → landed (provision P r req chosen value s).0 ≡ reply done none
      → (crd : FrkrClient) × ((persist P r.db chosen value s).0 ≡ next crd)
        × (secret : Secret) × (P.set_controller_reference crd.meta
              (client_secret_object P req crd value)
            ≡ ok secret)
        × ((apply_secret P secret (persist P r.db chosen value s).1).0 ≡ next tt)
        × let t = (apply_secret P secret (persist P r.db chosen value s).1).1 in
          ((P.clients.update_status crd t).0 ≡ ok tt)
          × ((provision P r req chosen value s).1 ≡ (P.clients.update_status crd t).1)
  unfolding provision ◌>>=◌
  provision-inv r req chosen value s h = elim (Flow-cases (persist P r.db chosen value s).0) [
    | inr (v, e) ↦
        let (err, answer) = persist-returned r.db chosen value s v e in
        absurd (ground (arith, answer, client_error_lem err))
    | inl (crd, e) ↦
        elim (Outcome-cases
          (P.set_controller_reference crd.meta (client_secret_object P req crd value))) [
            | inr (err, e') ↦ absurd (ground arith)
            | inl (secret, e') ↦
                let s' = (persist P r.db chosen value s).1 in
                elim (Flow-cases (apply_secret P secret s').0) [
                  | inr (v, e'') ↦ absurd (ground (arith, apply_secret-failed secret s' v e''))
                  | inl (_, e'') ↦ (crd, e, secret, e', ground arith, (ground arith, ground arith))
                ]
          ]
  ]

module _ (P : Platform) (L : SecretLaws P) where
  open L use {stored}

  -- A secret that has been applied is stored, unless it could not be looked up: then the secrets
  -- are as they were.
  pub apply_secret-stored :
      (secret : Secret) (s : P.State)
      → (apply_secret P secret s).0 ≡ next tt
      → (stored (apply_secret P secret s).1 (key_of secret.meta) ≡ some secret.contents)
        ⊎ (stored (apply_secret P secret s).1 ≡ stored s)
  unfolding apply_secret ◌>>=◌
  apply_secret-stored secret s h =
      let k = key_of secret.meta in
      let s' = (P.secrets.get k s).1 in
      elim (Outcome-cases (P.secrets.get k s).0) [
        | inl (existing, e) ↦
            let updated : Secret = record existing { contents = secret.contents } in
            ground (arith, L.get_found k s existing e, L.update_stored updated s')
        | inr (err, e) ↦ ground (arith, L.create_stored secret s', (L.get_keeps k).at s)
      ]

  -- A secret that is found is written over.
  apply_secret-found :
      (secret : Secret) (s : P.State) (existing : Secret)
      → (P.secrets.get (key_of secret.meta) s).0 ≡ ok existing
      → (apply_secret P secret s).0 ≡ next tt
      → stored (apply_secret P secret s).1 (key_of secret.meta) ≡ some secret.contents
  unfolding apply_secret ◌>>=◌
  apply_secret-found secret s existing e h =
      let k = key_of secret.meta in
      let updated : Secret = record existing { contents = secret.contents } in
      ground (arith, L.get_found k s existing e, L.update_stored updated (P.secrets.get k s).1)

  pub persist-Keeps :
      (db : Option (Db P)) (crd : FrkrClient) (value : String)
      → Keeps stored (persist P db crd value)
  unfolding persist
  persist-Keeps none crd value = search keeps_rules
  persist-Keeps (some db) crd value =
      search (keeps_rules, Keeps-ensure_client, L.client_keeps, L.get_client_keeps) depth 7

  -- After a run that ended well the client's secret holds the value that was chosen, or the secrets
  -- are as they were before it.
  pub provision_ok :
      (r : ClientReconciler P) (req : NamespacedName) (chosen : FrkrClient) (value : String)
      (s : P.State)
      → landed (provision P r req chosen value s).0 ≡ reply done none
      → (stored
            (provision P r req chosen value s).1
            (record { namespace = req.namespace; name = secret_name chosen.meta.name })
          ≡ some (credentials chosen.spec.client_id value))
        ⊎ (stored (provision P r req chosen value s).1 ≡ stored s)
  provision_ok r req chosen value s h =
      let (crd, persisted, secret, owned, applied, (_, ended)) =
        provision-inv P r req chosen value s h in
      let s' = (persist P r.db chosen value s).1 in
      ground (
        arith,
        ended,
        persist-next P r.db chosen crd value s persisted,
        L.owned crd.meta (client_secret_object P req crd value) secret owned,
        apply_secret-stored secret s' applied,
        (persist-Keeps r.db chosen value).at s,
        (L.clients_status_keeps crd).at (apply_secret P secret s').1,
      )

  -- A run that ended well, and found a secret to write over.
  pub provision_found :
      (r : ClientReconciler P) (req : NamespacedName) (chosen : FrkrClient) (value : String)
      (s : P.State) (existing : Secret)
      → let k : ObjectKey = record {
        namespace = req.namespace;
        name = secret_name chosen.meta.name;
      } in
        (P.secrets.get k (persist P r.db chosen value s).1).0 ≡ ok existing
        → landed (provision P r req chosen value s).0 ≡ reply done none
        → stored (provision P r req chosen value s).1 k
          ≡ some (credentials chosen.spec.client_id value)
  provision_found r req chosen value s existing read h =
      let (crd, persisted, secret, owned, applied, (_, ended)) =
        provision-inv P r req chosen value s h in
      let s' = (persist P r.db chosen value s).1 in
      let same = persist-next P r.db chosen crd value s persisted in
      let (key, contents) = L.owned crd.meta (client_secret_object P req crd value) secret owned in
      ground (
        arith,
        ended,
        same,
        key,
        contents,
        apply_secret-found secret s' existing (rw (key, same.0) read) applied,
        (L.clients_status_keeps crd).at (apply_secret P secret s').1,
      )
