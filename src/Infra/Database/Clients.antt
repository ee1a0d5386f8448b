-- ===== src/Infra/Database/Clients.antt =====
-- `EnsureClient` creates a client or gets the one that exists.
use frkr_operator.Base.{String, true, Option, ◌≡◌, ◌↔◌, inl, inr, arith, Bool-cases}
use frkr_operator.Base.Go.{Error, message, Outcome, ok, fail, Outcome-cases, ◌>>=◌}
use frkr_operator.Base.Text.{contains}
use frkr_operator.Platform.{Platform, ClientCredential}
use frkr_operator.Infra.Database.{Db, existing_client, ensure_client}

-- The client has been created, or the creation failed since there is one and that was found.
abbrev pub IsEnsured :
    Outcome ClientCredential → Outcome ClientCredential → ClientCredential → Type 0
IsEnsured (ok made) got client = made ≡ client
IsEnsured (fail e) got client = (contains (message e) "already exists" ≡ true) × (got ≡ ok client)

module _ (P : Platform) where
  existing_client_ok :
      (db : Db P) (tenant_id client_id : String) (e : Error) (s : P.State)
      (client : ClientCredential)
      → ((existing_client P db tenant_id client_id e s).0 ≡ ok client) ↔ (
          (contains (message e) "already exists" ≡ true)
          × ((P.get_client db.handle tenant_id client_id s).0 ≡ ok client))
  unfolding existing_client ◌>>=◌
  existing_client_ok db tenant_id client_id e s client =
      elim (Bool-cases (contains (message e) "already exists")) [
        | inl c ↦ ground arith
        | inr c ↦ ground arith
      ]

  -- EnsureClient gives a client exactly when its creation gave that client, or when the creation
  -- failed with a text that contains "already exists" and the look-up after it gave that client.
  pub ensure_client_ok :
      (db : Db P) (tenant_id client_id secret : String) (stream : Option String) (s : P.State)
      (client : ClientCredential)
      → let created = P.create_client db.handle tenant_id client_id secret stream s in
        ((ensure_client P db tenant_id client_id secret stream s).0 ≡ ok client)
        ↔ IsEnsured created.0 (P.get_client db.handle tenant_id client_id created.1).0 client
  unfolding ensure_client ◌>>=◌
  ensure_client_ok db tenant_id client_id secret stream s client =
      let created = P.create_client db.handle tenant_id client_id secret stream s in
      elim (Outcome-cases created.0) [
        | inl (made, e) ↦ rw e (ground arith)
        | inr (err, e) ↦
            rw e (ground (arith, existing_client_ok db tenant_id client_id err created.1 client))
      ]
