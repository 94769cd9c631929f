-- ===== src/Machine.antt =====
-- internal/sysinfo/sysinfo.go: what a machine says of itself. What the system calls and the `net`
-- package answer is a parameter.
pub mod Addresses
mod Examples
use omj_agent.Base.{
  ℕ, ◌≡◌, Bool, true, false, not, ◌&&◌, ◌||◌, Option, none, some, List, [], ◌∷◌, ◌++◌, take, length,
  ◌==◌, if◌then◌else◌, ℤ, pos, negsuc,
}
use omj_agent.Text.{Text, codes, is_nil, text_eq, contains_text, has_prefix, cut_suffix}
use omj_agent.Text.Trim.{trim_space}
use omj_agent.Text.Split.{cut, lines}
use omj_agent.Text.Decimal.{atoi}

abbrev pub max_reported_ips : ℕ
max_reported_ips = 16

abbrev pub unknown_uid : ℤ
unknown_uid = negsuc 0

-- A `net.IP`, as its methods describe it.
pub record Ip : Type 0 where
  pub text : Text
  pub global_unicast : Bool
  pub v4 : Bool

-- The address of an interface; none where it is no IP address.
pub record NetInterface : Type 0 where
  pub up : Bool
  pub loopback : Bool
  pub addrs : List (Option Ip)

pub record Found : Type 0 where
  pub seen : List Text
  pub v4 : List Text
  pub v6 : List Text

-- The body of the inner loop of `selectIPs`, for a global unicast address.
unfoldable pub keep_ip : Ip → Found → Found
keep_ip ip f =
    if contains_text f.seen ip.text
    then f
    else if ip.v4
    then record f { seen = ip.text ∷ f.seen; v4 = f.v4 ++ ip.text ∷ [] }
    else record f { seen = ip.text ∷ f.seen; v6 = f.v6 ++ ip.text ∷ [] }

-- The body of the inner loop of `selectIPs`.
unfoldable pub see : Option Ip → Found → Found
see none f = f
see (some ip) f = if not ip.global_unicast then f else keep_ip ip f

abbrev pub see_all : List (Option Ip) → Found → Found
see_all [] f = f
see_all (a ∷ addrs) f = see_all addrs (see a f)

abbrev pub see_interfaces : List NetInterface → Found → Found
see_interfaces [] f = f
see_interfaces (i ∷ ifaces) f =
    see_interfaces ifaces (if not i.up || i.loopback then f else see_all i.addrs f)

unfoldable pub select_ips : List NetInterface → List Text
select_ips ifaces =
    let f = see_interfaces ifaces (record { seen = []; v4 = []; v6 = [] }) in
    take max_reported_ips (f.v4 ++ f.v6)

-- The escapes between double quotes, read from the left.
abbrev pub unescape_release : Text → Text
unescape_release [] = []
unescape_release (c ∷ []) = c ∷ []
unescape_release (c ∷ d ∷ s) =
    let skipped = unescape_release s in
    let next = unescape_release (d ∷ s) in
    if c == b'\\' && (d == b'"' || d == b'\\' || d == b'$' || d == b'`')
    then d ∷ skipped
    else c ∷ next

-- What stands between a quote and the same quote at the end.
abbrev pub between : ℕ → Text → Option Text
between q s = cut_suffix (q ∷ []) s

unfoldable pub unquote_release : Text → Text
unquote_release [] = []
unquote_release (c ∷ s) =
    if not (c == b'"') && not (c == b'\'') then c ∷ s else elim (between c s) [
      | none ↦ c ∷ s
      | some inner ↦ if c == b'\'' then inner else unescape_release inner
    ]

-- `values[key]`, where a line sets it last.
abbrev pub release_value : Text → List Text → Text → Text
release_value key [] value = value
release_value key (l ∷ ls) value =
    let line = trim_space l in
    release_value key ls (
      if is_nil line || has_prefix (codes "#") line then value else elim (cut b'=' line) [
        | none ↦ value
        | some (before, after) ↦
            if text_eq (trim_space before) key then unquote_release (trim_space after) else value
      ])

-- `prettyName`, from what reading the file answers.
unfoldable pub pretty_name : Option Text → Text
pretty_name none = []
pretty_name (some content) = release_value (codes "PRETTY_NAME") (lines content) []

unfoldable pub os_version : Option Text → Text → Text → Text
os_version file sysname release =
    let name = pretty_name file in
    if not (is_nil name) then name else trim_space (sysname ++ codes " " ++ release)

-- `currentUser`, from the user's name and the text of its uid.
unfoldable pub current_user : Option (Text × Text) → Text × ℤ
current_user none = ([], unknown_uid)
current_user (some (name, uid)) = elim (atoi uid) [
  | none ↦ (name, unknown_uid)
  | some n ↦ (name, n)
]

pub record Info : Type 0 where
  pub hostname : Text
  pub os : Text
  pub os_version : Text
  pub arch : Text
  pub kernel_version : Text
  pub reported_ips : List Text
  pub agent_user : Text
  pub agent_uid : ℤ

-- What the system answers: a text is empty where its call fails.
pub record Host : Type 0 where
  pub sysname : Text
  pub release : Text
  pub hostname : Text
  pub goos : Text
  pub goarch : Text
  pub os_release : Option Text
  pub interfaces : List NetInterface
  pub user : Option (Text × Text)

-- `Collect`, where the context has not ended.
unfoldable pub collect : Host → Info
collect h =
    let (agent_user, agent_uid) = current_user h.user in
    record {
      hostname = h.hostname;
      os = h.goos;
      os_version = os_version h.os_release h.sysname h.release;
      arch = h.goarch;
      kernel_version = h.release;
      reported_ips = select_ips h.interfaces;
      agent_user = agent_user;
      agent_uid = agent_uid;
    }
