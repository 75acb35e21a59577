-- ===== src/Agent/Validate/Names.antt =====
-- The tests on the arguments of commands, agent/go/cmd/rmm-agent/main.go: safeHostName, safeUserName,
-- safePackageName, safeServiceName, safeUCIConfig, safeUCISection and safeUCIOption.
use openwrt_rmm.Base.{ℕ, String, Bool, ◌||◌, [], ◌∷◌, contains, eqb}
use openwrt_rmm.Agent.Validate.{is_alphanumeric, safe_name, session_rune}

-- '.', '-', '_', ':', '[', ']'
abbrev host_rune : ℕ → Bool
host_rune r =
    is_alphanumeric r || eqb r 46 || eqb r 45 || eqb r 95 || eqb r 58 || eqb r 91 || eqb r 93

-- safeHostName
unfoldable pub safe_host_name : String → Bool
safe_host_name value = safe_name 255 host_rune value

-- '_', '.', '@', '-'
abbrev user_rune : ℕ → Bool
user_rune r = is_alphanumeric r || eqb r 95 || eqb r 46 || eqb r 64 || eqb r 45

-- safeUserName
unfoldable pub safe_user_name : String → Bool
safe_user_name value = safe_name 128 user_rune value

-- '_', '.', '+', '-'
abbrev package_rune : ℕ → Bool
package_rune r = is_alphanumeric r || eqb r 95 || eqb r 46 || eqb r 43 || eqb r 45

-- safePackageName
unfoldable pub safe_package_name : String → Bool
safe_package_name value = safe_name 128 package_rune value

-- safeServiceName
unfoldable pub safe_service_name : String → Bool
safe_service_name value =
    contains ("network" ∷ "firewall" ∷ "dnsmasq" ∷ "dropbear" ∷ "uhttpd" ∷ []) value

-- safeUCIConfig
unfoldable pub safe_config : String → Bool
safe_config value = contains ("network" ∷ "wireless" ∷ "dhcp" ∷ "firewall" ∷ "system" ∷ []) value

-- '_', '.', '@', '[', ']', '-'
abbrev section_rune : ℕ → Bool
section_rune r =
    is_alphanumeric r || eqb r 95 || eqb r 46 || eqb r 64 || eqb r 91 || eqb r 93 || eqb r 45

-- safeUCISection
unfoldable pub safe_section : String → Bool
safe_section value = safe_name 128 section_rune value

-- safeUCIOption
unfoldable pub safe_option : String → Bool
safe_option value = safe_name 128 session_rune value
