-- ===== src/Kind/Authentication.antt =====
-- src/message.rs: `AuthenticationMessageKind`.
use fakepostmaster.Prelude.{◌==◌, if◌then◌else◌}
use fakepostmaster.Int.{ℤ, pos, negsuc}
use fakepostmaster.Outcome.{Outcome, ok, err, unsupported_authentication_code}

pub data AuthenticationMessageKind : Type 0 where
  authentication_ok kerberos_v5 cleartext_password md5_password : AuthenticationMessageKind
  gss gss_continue sspi sasl sasl_continue sasl_final : AuthenticationMessageKind

unfoldable pub authentication_code : AuthenticationMessageKind → ℤ
authentication_code authentication_ok = pos 0
authentication_code kerberos_v5 = pos 2
authentication_code cleartext_password = pos 3
authentication_code md5_password = pos 5
authentication_code gss = pos 7
authentication_code gss_continue = pos 8
authentication_code sspi = pos 9
authentication_code sasl = pos 10
authentication_code sasl_continue = pos 11
authentication_code sasl_final = pos 12

unfoldable pub authentication_kind_of : ℤ → Outcome AuthenticationMessageKind
authentication_kind_of (negsuc n) = err unsupported_authentication_code
authentication_kind_of (pos n) =
    if n == 0
    then ok authentication_ok
    else if n == 2
    then ok kerberos_v5
    else if n == 3
    then ok cleartext_password
    else if n == 5
    then ok md5_password
    else if n == 7
    then ok gss
    else if n == 8
    then ok gss_continue
    else if n == 9
    then ok sspi
    else if n == 10
    then ok sasl
    else if n == 11
    then ok sasl_continue
    else if n == 12
    then ok sasl_final
    else err unsupported_authentication_code
