-- ===== src/Admission/Security.antt =====
-- The validation of the LDAP, OIDC and audit sections: internal/controller/auth/ldap.go, oidc.go and
-- internal/controller/audit/audit.go.
use mongodb_operator.Common.{
  ℕ, ◌+◌, String, Bool, not, ◌&&◌, ◌||◌, Option, none, some, List, [], ◌∷◌, if◌then◌else◌, is_empty,
  is_blank, has_prefix, has_byte, is_one_of,
}

pub record LdapSpec : Type 0 where
  pub servers : String
  pub bind_method : String
  pub tls : Bool

pub data LdapError : Type 0 where
  servers_missing plaintext bind_method_unknown : LdapError

-- ValidateLDAPSpec, on a spec that is not nil
unfoldable pub validate_ldap_spec : LdapSpec → Option LdapError
validate_ldap_spec s =
    if is_blank s.servers
    then some servers_missing
    else if not s.tls
    then some plaintext
    else if not (is_one_of ("" ∷ "simple" ∷ "sasl" ∷ []) s.bind_method)
    then some bind_method_unknown
    else none

pub record OidcSpec : Type 0 where
  pub issuer_url : String
  pub client_id : String
  pub identity_provider : String

pub data OidcError : Type 0 where
  issuer_missing not_https query_or_fragment client_missing provider_unknown : OidcError

-- ValidateOIDCSpec, on a spec that is not nil
unfoldable pub validate_oidc_spec : OidcSpec → Option OidcError
validate_oidc_spec s =
    if is_blank s.issuer_url
    then some issuer_missing
    else if not (has_prefix "https://" s.issuer_url)
    then some not_https
    else if has_byte b'?' s.issuer_url || has_byte b'#' s.issuer_url
    then some query_or_fragment
    else if is_blank s.client_id
    then some client_missing
    else if is_one_of ("" ∷ "generic" ∷ "keycloak" ∷ "okta" ∷ "auth0" ∷ "google" ∷ [])
        s.identity_provider
    then none
    else some provider_unknown

pub record AuditForwarderSpec : Type 0 where
  pub type : String
  pub url : String

pub record AuditAlertRule : Type 0 where
  pub name : String
  pub event_type : String
  pub severity : String

pub record AuditLogSpec : Type 0 where
  pub enabled : Bool
  pub destination : String
  pub central_forwarder : Option AuditForwarderSpec
  pub alert_rules : List AuditAlertRule

pub data AuditError : Type 0 where
  destination_invalid forwarder_type forwarder_url : AuditError
  rule_name rule_event_type rule_severity : ℕ → AuditError

abbrev check_forwarder : Option AuditForwarderSpec → Option AuditError
check_forwarder none = none
check_forwarder (some f) =
    if not (is_one_of ("loki" ∷ "elasticsearch" ∷ "opensearch" ∷ []) f.type)
    then some forwarder_type
    else if not (has_prefix "http://" f.url) && not (has_prefix "https://" f.url)
    then some forwarder_url
    else none

-- The loop over the alert rules, from index `i` on.
unfoldable pub check_rules : ℕ → List AuditAlertRule → Option AuditError
check_rules i [] = none
check_rules i (r ∷ rs) =
    let rest = check_rules (i + 1) rs in
    if is_empty r.name
    then some (rule_name i)
    else if is_empty r.event_type
    then some (rule_event_type i)
    else if not (is_one_of ("" ∷ "info" ∷ "warning" ∷ "critical" ∷ []) r.severity)
    then some (rule_severity i)
    else rest

abbrev or_next : Option AuditError → Option AuditError → Option AuditError
or_next none next = next
or_next (some e) next = some e

-- ValidateAuditLogSpec, on a spec that is not nil
unfoldable pub validate_audit_log_spec : AuditLogSpec → Option AuditError
unfolding check_rules
validate_audit_log_spec s =
    if not s.enabled
    then none
    else if not (is_one_of ("" ∷ "file" ∷ "syslog" ∷ "console" ∷ []) s.destination)
    then some destination_invalid
    else or_next (check_forwarder s.central_forwarder) (check_rules 0 s.alert_rules)
