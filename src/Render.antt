-- ===== src/Render.antt =====
-- lambda/shardvpn/render.py: the cloud-init script, from a `string.Template` with ASCII names.
use shard_vpn.Prelude.{
  ℕ, Text, txt, ◌==◌, Bool, not, ◌&&◌, ◌||◌, Option, none, some, [], ◌∷◌, ◌++◌, leb, eqb,
  if◌then◌else◌,
}
use shard_vpn.Python.{Exc}
use shard_vpn.Python.Json.{Json, truthy}
use shard_vpn.World.{Call}
use shard_vpn.Exec.{Exec, raise, asks, call, ◌>>=◌}

-- [_a-z] and [_a-z0-9] under IGNORECASE
unfoldable pub name_start : ℕ → Bool
name_start c = eqb c b'_' || (leb b'a' c && leb c b'z') || (leb b'A' c && leb c b'Z')

unfoldable pub name_char : ℕ → Bool
name_char c = name_start c || (leb b'0' c && leb c b'9')

-- Where the scan stands: in plain text, behind a `$`, in `$name`, in `${name`.
pub data Scan : Type 0 where
  plain dollar : Scan
  named braced : Text → Scan

-- A character of plain text, or the `$` that begins a placeholder.
abbrev next : ℕ → Scan
next c = if eqb c b'$' then dollar else plain

abbrev shown : ℕ → Text
shown c = if eqb c b'$' then [] else c ∷ []

module _ (values : Text → Option Text) where
  -- A placeholder whose name has no value stays as it is written.
  unfoldable pub fill : Text → Text → Text
  fill name written = elim (values name) [ none ↦ written | some v ↦ v ]

  -- One step: what is written out, and where the scan stands then.
  unfoldable pub scan_step : Scan → ℕ → Text × Scan
  scan_step plain c = (shown c, next c)
  scan_step dollar c =
      if eqb c b'$'
      then (b'$' ∷ [], plain)
      else if eqb c b'{'
      then ([], braced [])
      else if name_start c
      then ([], named (c ∷ []))
      else (b'$' ∷ c ∷ [], plain)
  scan_step (named name) c =
      if name_char c
      then ([], named (name ++ c ∷ []))
      else (fill name (b'$' ∷ name) ++ shown c, next c)
  scan_step (braced []) c =
      if name_start c then ([], braced (c ∷ [])) else (b'$' ∷ b'{' ∷ shown c, next c)
  scan_step (braced (n ∷ name)) c =
      if name_char c
      then ([], braced (n ∷ name ++ c ∷ []))
      else if eqb c b'}'
      then (fill (n ∷ name) (b'$' ∷ b'{' ∷ n ∷ name ++ b'}' ∷ []), plain)
      else (b'$' ∷ b'{' ∷ n ∷ name ++ shown c, next c)

  unfoldable pub scan_end : Scan → Text
  scan_end plain = []
  scan_end dollar = b'$' ∷ []
  scan_end (named name) = fill name (b'$' ∷ name)
  scan_end (braced name) = b'$' ∷ b'{' ∷ name

  unfoldable pub substitute : Scan → Text → Text
  substitute state [] = scan_end state
  substitute state (c ∷ s) = let (out, state') = scan_step state c in out ++ substitute state' s

-- safe_substitute(TS_AUTHKEY=authkey, TS_HOSTNAME=hostname)
unfoldable pub launch_values : Text → Text → Text → Option Text
launch_values authkey hostname name =
    if name == txt "TS_AUTHKEY"
    then some authkey
    else if name == txt "TS_HOSTNAME"
    then some hostname
    else none

-- _TEMPLATE_PATH.read_text(): the file is read at each call, which may fail
unfoldable pub read_template : Exec Text
read_template = call Call.read_template (λ env h. env.read_template h)

unfoldable pub rendered : Json → Text → Text → Exec Text
rendered authkey hostname template =
    asks (λ env. substitute (launch_values (env.format authkey) hostname) plain template)

unfoldable pub render_userdata : Json → Text → Exec Text
render_userdata authkey hostname =
    if not (truthy authkey)
    then raise (Exc.value_error (txt "authkey is required"))
    else if hostname == []
    then raise (Exc.value_error (txt "hostname is required"))
    else read_template >>= rendered authkey hostname
