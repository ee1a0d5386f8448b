-- ===== src/Infra/Database/Spares.antt =====
-- The database functions leave alone whatever frkr-common's functions under them leave alone.
use frkr_operator.Base.{String, Option, arith}
use frkr_operator.Base.Go.{◌>>=◌}
use frkr_operator.Base.Keeps.{Keeps, keeps_rules}
use frkr_operator.Platform.{Platform}
use frkr_operator.Infra.Database.{Db, ensure_tenant, ensure_user, ensure_client}

module _ (P : Platform) {V : Type 0} (view : P.State → V) (db : Db P) where
  pub Keeps-ensure_tenant :
      (name : String)
      → Keeps view (P.create_or_get_tenant db.handle name)
      → Keeps view (ensure_tenant P db name)
  unfolding ensure_tenant
  Keeps-ensure_tenant name k = search keeps_rules

  pub Keeps-ensure_user :
      (tenant_id username password : String)
      → Keeps view (P.create_user db.handle tenant_id username password)
      → Keeps view (ensure_user P db tenant_id username password)
  unfolding ensure_user
  Keeps-ensure_user tenant_id username password k = k

  pub Keeps-ensure_client :
      (tenant_id client_id secret : String) (stream : Option String)
      → Keeps view (P.create_client db.handle tenant_id client_id secret stream)
      → Keeps view (P.get_client db.handle tenant_id client_id)
      → Keeps view (ensure_client P db tenant_id client_id secret stream)
  unfolding ensure_client ◌>>=◌
  Keeps-ensure_client tenant_id client_id secret stream kc kg = record {
    at = λ s.
        let s' = (P.create_client db.handle tenant_id client_id secret stream s).1 in
        ground (arith, kc.at s, kg.at s');
  }
