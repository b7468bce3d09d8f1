-- ===== src/Routing.antt =====
-- agents/top_of_funnel/routing.py: the owner of a new lead, by segment and in rotation. The clock is
-- an argument; the territory file and the list of Salesforce users are parameters.
pub mod Rotation
use loop_revops_agents.Base.{
  ℕ, zero, suc, ◌+◌, ◌*◌, ◌%◌, String, Bool, true, false, Option, none, some, List, [], ◌∷◌, ◌++◌,
  ◌&&◌, not, leb, ltb, str_eq, is_empty, length, get_elem?, if◌then◌else◌,
}
use loop_revops_agents.Base.Texts.{lower, strip}
use loop_revops_agents.World.Rows.{hour}

pub data Segment : Type 0 where
  ent mm smb : Segment

-- Python's integers.
pub data ℤ : Type 0 where
  pos negsuc : ℕ → ℤ

unfoldable pub classify_segment : Option ℤ → Segment
classify_segment none = smb
classify_segment (some (negsuc n)) = smb
classify_segment (some (pos n)) =
    if ltb n 1 then smb else if leb 50 n then ent else if leb 10 n then mm else smb

-- A row of `tof_sf_user_cache`.
pub record CachedUser : Type 0 where
  pub email : String
  pub user_id : String
  pub name : Option String
  pub is_active : Bool
  pub cached_at : ℕ

-- The two tables: the cache, and `tof_routing_state` with the last index of a segment.
pub record Router : Type 0 where
  pub cache : List CachedUser
  pub rotation : Segment → Option ℕ

-- A user as `list_users` returns it, with its `Id`.
pub record SfUser : Type 0 where
  pub email : Option String
  pub user_id : String
  pub name : Option String
  pub is_active : Option Bool

-- `(u.get("Email") or "").lower().strip()`
abbrev pub email_key : Option String → String
email_key none = ""
email_key (some s) = strip (lower s)

abbrev cached : ℕ → String → SfUser → CachedUser
cached now email u = record {
  email = email;
  user_id = u.user_id;
  name = u.name;
  is_active = elim u.is_active [ none ↦ true | some b ↦ b ];
  cached_at = now;
}

-- `INSERT … ON CONFLICT(email) DO UPDATE`
unfoldable pub upsert : CachedUser → List CachedUser → List CachedUser
upsert c [] = c ∷ []
upsert c (r ∷ rs) = let rest = upsert c rs in if str_eq r.email c.email then c ∷ rs else r ∷ rest

abbrev upsert_all : ℕ → List SfUser → List CachedUser → ℕ × List CachedUser
upsert_all now [] rows = (0, rows)
upsert_all now (u ∷ us) rows =
    let email = email_key u.email in
    let skipped = upsert_all now us rows in
    let (n, rows') = upsert_all now us (upsert (cached now email u) rows) in
    if str_eq email "" then skipped else (n + 1, rows')

-- With the users listed, or `none` when the call raised. The number of rows written is returned.
unfoldable pub refresh_user_cache : ℕ → Option (List SfUser) → Router → ℕ × Router
unfolding upsert lower strip
refresh_user_cache now none s = (0, s)
refresh_user_cache now (some users) s =
    let (n, rows) = upsert_all now users s.cache in (n, record s { cache = rows })

abbrev user_cache_ttl_hours : ℕ
user_cache_ttl_hours = 24

-- `cached_at >= cutoff`
abbrev pub is_recent : ℕ → CachedUser → Bool
is_recent now r = leb now (r.cached_at + user_cache_ttl_hours * hour)

-- `_lookup_user`
unfoldable pub lookup_user : ℕ → String → List CachedUser → Option CachedUser
unfolding lower strip
lookup_user now email [] = none
lookup_user now email (r ∷ rs) =
    let rest = lookup_user now email rs in
    if str_eq r.email (strip (lower email)) && is_recent now r then some r else rest

-- `_cache_fresh`: the newest row of the cache is recent.
unfoldable pub cache_fresh : ℕ → List CachedUser → Bool
cache_fresh now [] = false
cache_fresh now (r ∷ rs) = if is_recent now r then true else cache_fresh now rs

abbrev pub write_index : Segment → ℕ → Router → Router
write_index ent i s = record s {
  rotation = λ x. elim x [ ent ↦ some i | mm ↦ s.rotation mm | smb ↦ s.rotation smb ];
}
write_index mm i s = record s {
  rotation = λ x. elim x [ ent ↦ s.rotation ent | mm ↦ some i | smb ↦ s.rotation smb ];
}
write_index smb i s = record s {
  rotation = λ x. elim x [ ent ↦ s.rotation ent | mm ↦ s.rotation mm | smb ↦ some i ];
}

-- The index that comes after the last one.
abbrev pub following : ℕ → Option ℕ → ℕ
following n none = 0
following n (some last) = (last + 1) % n

-- `_next_index`
unfoldable pub next_index : Segment → ℕ → Router → ℕ × Router
next_index segment zero s = (0, s)
next_index segment (suc n) s =
    let idx = following (suc n) (s.rotation segment) in (idx, write_index segment idx s)

-- An entry of a rotation in the territory file.
pub record Entry : Type 0 where
  pub email : Option String
  pub slack_id : Option String

pub record Territory : Type 0 where
  pub rotation : Segment → List Entry
  pub default_owner_id : Option String

pub record Slot : Type 0 where
  pub email : String
  pub slack_id : Option String
  pub user_id : String

pub record RoutingResult : Type 0 where
  pub segment : Segment
  pub sdr_email : String
  pub sdr_user_id : String
  pub sdr_slack_id : Option String
  pub fallback : Bool
  pub reason : String

abbrev pub usable : Entry → Option CachedUser → List Slot
usable entry none = []
usable entry (some u) =
    if u.is_active && not (str_eq u.user_id "")
    then record { email = email_key entry.email; slack_id = entry.slack_id; user_id = u.user_id }
      ∷ []
    else []

-- The entries of a rotation whose users are active, in its order.
unfoldable pub slots_of : ℕ → List CachedUser → List Entry → List Slot
unfolding lookup_user lower strip
slots_of now cache [] = []
slots_of now cache (entry ∷ rest) =
    let email = email_key entry.email in
    let others = slots_of now cache rest in
    if str_eq email "" then others else usable entry (lookup_user now email cache) ++ others

abbrev or_text : Option String → String → String
or_text none rest = rest
or_text (some s) rest = if str_eq s "" then rest else s

-- `_fallback`
abbrev pub fallback_owner : Territory → Segment → RoutingResult
fallback_owner cfg segment = record {
  segment = segment;
  sdr_email = "tof-agent@tryloop.ai";
  sdr_user_id = or_text cfg.default_owner_id "PLACEHOLDER_TOF_AGENT_USER_ID";
  sdr_slack_id = none;
  fallback = true;
  reason = "no_active_rotation_members";
}

-- `slack_id if slack_id and slack_id != "PLACEHOLDER" else None`
abbrev real_slack_id : Option String → Option String
real_slack_id none = none
real_slack_id (some s) =
    if str_eq s "" then none else if str_eq s "PLACEHOLDER" then none else some s

abbrev pub owner_of : Segment → Slot → RoutingResult
owner_of segment slot = record {
  segment = segment;
  sdr_email = slot.email;
  sdr_user_id = slot.user_id;
  sdr_slack_id = real_slack_id slot.slack_id;
  fallback = false;
  reason = "";
}

-- `slots[idx]`, where `none` stands for an `IndexError`.
abbrev pub picked : Segment → Option Slot → Option RoutingResult
picked segment none = none
picked segment (some slot) = some (owner_of segment slot)

abbrev pub assign_from : Territory → Segment → List Slot → Router → Option RoutingResult × Router
assign_from cfg segment [] s = (some (fallback_owner cfg segment), s)
assign_from cfg segment (slot ∷ slots) s =
    let (idx, s') = next_index segment (length (slot ∷ slots)) s in
    (picked segment (get_elem? (slot ∷ slots) idx), s')

-- The cache, refreshed when it is stale and a refresh is wanted.
unfoldable pub ready_router : ℕ → Bool → Option (List SfUser) → Router → Router
unfolding cache_fresh refresh_user_cache
ready_router now auto_refresh users s =
    if auto_refresh && not (cache_fresh now s.cache) then (refresh_user_cache now users s).1 else s

unfoldable pub assign_owner :
    ℕ → Option ℤ → Territory → Bool → Option (List SfUser) → Router → Option RoutingResult × Router
unfolding classify_segment ready_router slots_of next_index
assign_owner now location_count cfg auto_refresh users s =
    let segment = classify_segment location_count in
    let s' = ready_router now auto_refresh users s in
    assign_from cfg segment (slots_of now s'.cache (cfg.rotation segment)) s'
