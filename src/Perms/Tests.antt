-- ===== src/Perms/Tests.antt =====
-- Runs of the permissions (src/perms.rs).
use veil_os.Vfs.{Bytes, eq_bytes}
use veil_os.Vfs.Image.{before}
use veil_os.Perms.{
  lookup, insert, or_zero, for_app, is_system, is_any, eq_ignore_ascii_case, to_lower, grant,
  revoke, every, network, audio,
}
use veil_os.Base.{◌≡◌, refl, [], ◌∷◌}

abbrev app : Bytes
app = 65 ∷ 49 ∷ []

revoked : for_app (revoke (grant (grant [] app network) app audio) app network) app ≡ audio
unfolding for_app is_system is_any eq_ignore_ascii_case to_lower eq_bytes lookup insert or_zero
    grant revoke before
revoked = refl

-- "hello.wsm", in any case of letters.
system_app : for_app [] (104 ∷ 101 ∷ 108 ∷ 108 ∷ 111 ∷ 46 ∷ 119 ∷ 115 ∷ 109 ∷ []) ≡ every
unfolding for_app is_system is_any eq_ignore_ascii_case to_lower eq_bytes
system_app = refl
