-- ===== src/Tests/Monitors.antt =====
-- Runs of the commands on metrics, on a cluster that keeps ServiceMonitors.
use frkr_operator.Base.{
  String, none, some, ◌++◌, ◌≡◌, ◌≢◌, ◌⊎◌, inl, inr, refl, arith, map, Option-cases,
}
use frkr_operator.Base.Go.{Error, ok, fail, next, ◌>>=◌}
use frkr_operator.Api.Meta.{ObjectKey}
use frkr_operator.Cli.Session.{line, Shell, Session}
use frkr_operator.Cli.Metrics.{
  Value, object, text, field, gateways, get_dynamic_client, enable_metrics, metrics_status,
}
use frkr_operator.Cli.Metrics.Store.{member, name_of, MonitorLaws}
use frkr_operator.Cli.Metrics.Follow.{deployed_lines, missing_lines, answered, status-enable}
use frkr_operator.Tests.Memory.{not_found, or_not_found}
use frkr_operator.Tests.Memory.Shelf.{find, erase, insert, find-insert}
use frkr_operator.Tests.Samples.{P, empty_world}
use frkr_operator.Tests.Commands.{session}

abbrev at : String → String → ObjectKey
at namespace name = record { namespace = namespace; name = name }

-- What the server stores of an object: it adds the creation time.
abbrev stamped : Value → Value
stamped (object fields) = object (field "creationTimestamp" (text "2025-01-01") fields)
stamped v = v

abbrev created : Value → String
created v = elim (member "creationTimestamp" v) [ some (text t) ↦ t | _ ↦ "0001-01-01" ]

abbrev H : Shell P
H = record {
  Custom = Value;
  get_config = λ s. (ok tt, s);
  new_client = λ s. (ok tt, s);
  new_dynamic_client = λ s. (ok tt, s);
  kubeconfig_namespace = λ s. (ok "frkr", s);
  custom_get = λ namespace name s. (or_not_found (find (at namespace name) s.monitors), s);
  custom_create = λ namespace v s. elim (name_of v) [
    | none ↦ (fail not_found, s)
    | some name ↦ (ok tt, record s { monitors = insert (at namespace name) (stamped v) s.monitors })
  ];
  custom_delete =
      λ namespace name s. (ok tt, record s { monitors = erase (at namespace name) s.monitors });
  definition_get = λ name s. (ok tt, s);
  creation_time = created;
  encode_json = λ m s. (ok tt, s);
  elapse = λ s. s;
}

abbrev custom : Value → Value
custom v = v

monitor_laws : MonitorLaws P H custom
monitor_laws = record {
  held = λ s namespace name. find (at namespace name) s.monitors;
  create_held = λ namespace name v s named h.
      (stamped v, ground (arith, find-insert (at namespace name) (stamped v) s.monitors));
  get_found = λ namespace name s c h. elim (Option-cases (find (at namespace name) s.monitors)) [
    | inl e ↦ absurd (ground arith)
    | inr (d, e) ↦ ground arith
  ];
  get_missing = λ namespace name s err h i.
      elim (Option-cases (find (at namespace name) s.monitors)) [
        | inl e ↦ e
        | inr (d, e) ↦ absurd (ground arith)
      ];
  config_keeps = record { at = λ s. refl };
  client_keeps = record { at = λ s. refl };
  definition_keeps = λ name. record { at = λ s. refl };
}

abbrev start : Session P
start = session empty_world

enabled_ok : (enable_metrics P H custom "frkr" start).0 ≡ none
unfolding enable_metrics ◌>>=◌
enabled_ok = refl

enabled_connects :
    (get_dynamic_client P H custom (enable_metrics P H custom "frkr" start).1).0 ≡ next tt
unfolding get_dynamic_client ◌>>=◌
enabled_connects = refl

status-enable_example :
    let enabled = (enable_metrics P H custom "frkr" start).1 in
    (c : Value) × (monitor_laws.held enabled.world "frkr" gateways ≡ some c)
    × ((metrics_status P H custom "frkr" enabled).0 ≡ none)
    × (((answered P H custom monitor_laws "frkr" enabled ≡ ok c)
          × ((metrics_status P H custom "frkr" enabled).1.printed
              ≡ enabled.printed ++ map line (deployed_lines "frkr" (H.creation_time c))))
        ⊎ ((e : Error) × (answered P H custom monitor_laws "frkr" enabled ≡ fail e)
            × (P.ignore_not_found e ≢ none)
            × ((metrics_status P H custom "frkr" enabled).1.printed
                ≡ enabled.printed ++ map line (missing_lines "frkr"))))
status-enable_example =
    status-enable P H custom monitor_laws "frkr" start enabled_ok (enabled_connects, refl)
