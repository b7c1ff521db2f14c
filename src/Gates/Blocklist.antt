-- ===== src/Gates/Blocklist.antt =====
-- The token blocklist (internal/server/auth/blocklist.go). A time is a number; the answers of the token
-- store are arguments, and what it is told is a log.
use claude_plane.Base.{
  ℕ, String, Bool, true, false, Option, some, none, List, [], ◌∷◌, Map, lookup, insert,
  if◌then◌else◌, ltb, arith, eq_iff, lookup-insert, lookup-insert_self, All, ◌≡◌, ◌≤◌, inl, inr,
  text_cases,
}

pub data TokenWrite : Type 0 where
  revoke_token : String → String → ℕ → TokenWrite
  clean_tokens : ℕ → TokenWrite

pub record Blocklist : Type 0 where
  pub entries : Map ℕ
  pub writes : List TokenWrite

-- NewBlocklist's loop over the rows.
unfoldable pub load_revocations : List (String × ℕ) → Map ℕ → Map ℕ
load_revocations [] entries = entries
load_revocations ((jti, expires_at) ∷ rest) entries =
    load_revocations rest (insert jti expires_at entries)

-- NewBlocklist, with the answer of LoadActiveRevocations (none for an error).
unfoldable pub new_blocklist : Option (List (String × ℕ)) → Option Blocklist
unfolding load_revocations
new_blocklist none = none
new_blocklist (some revoked) = some (record { entries = load_revocations revoked []; writes = [] })

-- Add, with whether the store reports an error; it returns whether it reports one.
unfoldable pub add_revocation :
    String → String → ℕ → (store_err : Bool) → Blocklist → Bool × Blocklist
add_revocation jti user_id expires_at store_err bl =
    let b = record bl { writes = revoke_token jti user_id expires_at ∷ bl.writes } in
    if store_err
    then (true, b)
    else (false, record b { entries = insert jti expires_at bl.entries })

unfoldable pub is_revoked : String → Blocklist → Bool
is_revoked jti bl = elim (lookup jti bl.entries) [ none ↦ false | some e ↦ true ]

-- cleanExpired's loop: deleting while ranging visits every entry once.
unfoldable pub drop_expired : ℕ → Map ℕ → Map ℕ
drop_expired now [] = []
drop_expired now ((jti, exp) ∷ rest) =
    if ltb exp now then drop_expired now rest else (jti, exp) ∷ drop_expired now rest

-- cleanExpired; an error of the store is only logged.
unfoldable pub clean_expired : ℕ → Blocklist → Blocklist
unfolding drop_expired
clean_expired now bl = record {
  entries = drop_expired now bl.entries;
  writes = clean_tokens now ∷ bl.writes;
}

pub data BlocklistCall : Type 0 where
  add_call : String → String → ℕ → Bool → BlocklistCall
  clean_call : ℕ → BlocklistCall

unfoldable pub blocklist_call : BlocklistCall → Blocklist → Blocklist
unfolding add_revocation clean_expired
blocklist_call (add_call jti user_id exp err) bl = (add_revocation jti user_id exp err bl).1
blocklist_call (clean_call now) bl = clean_expired now bl

unfoldable pub blocklist_calls : List BlocklistCall → Blocklist → Blocklist
unfolding blocklist_call
blocklist_calls [] bl = bl
blocklist_calls (c ∷ cs) bl = blocklist_calls cs (blocklist_call c bl)

-- A call made by a given time, which revokes the token again for no shorter than that.
abbrev pub NotAfter : String → ℕ → BlocklistCall → Type 0
NotAfter jti time (add_call other user_id exp err) = other ≡ jti → time ≤ exp
NotAfter jti time (clean_call now) = now ≤ time

lookup-drop_expired :
    (now : ℕ) (jti : String) (e : ℕ) (m : Map ℕ)
    → lookup jti m ≡ some e
    → now ≤ e
    → lookup jti (drop_expired now m) ≡ some e
unfolding lookup drop_expired
lookup-drop_expired now jti e [] h k = cc
lookup-drop_expired now jti e ((i, exp) ∷ m) h k =
    ground (arith, lookup-drop_expired now jti e m, eq_iff i jti)

-- The token has an entry that lasts to the time.
abbrev Lasts : String → ℕ → Blocklist → Type 0
Lasts jti time bl = (e : ℕ) × (lookup jti bl.entries ≡ some e) × (time ≤ e)

blocklist_call-Lasts :
    (jti : String) (time : ℕ) (c : BlocklistCall) (bl : Blocklist)
    → NotAfter jti time c
    → Lasts jti time bl
    → Lasts jti time (blocklist_call c bl)
unfolding blocklist_call add_revocation clean_expired
blocklist_call-Lasts jti time (add_call i user_id exp true) bl early lasts = lasts
blocklist_call-Lasts jti time (add_call i user_id exp false) bl early (e, here, long) =
    elim (text_cases i jti) [
      | inl (t, same) ↦ (exp, ground (arith, lookup-insert i jti exp bl.entries, t), early same)
      | inr (t, other) ↦ (e, ground (arith, lookup-insert i jti exp bl.entries, t), long)
    ]
blocklist_call-Lasts jti time (clean_call now) bl early (e, here, long) =
    (e, lookup-drop_expired now jti e bl.entries here (omega (arith, early, long)), long)

blocklist_calls-Lasts :
    (jti : String) (time : ℕ) (cs : List BlocklistCall) (bl : Blocklist)
    → All (NotAfter jti time) cs
    → Lasts jti time bl
    → Lasts jti time (blocklist_calls cs bl)
unfolding blocklist_calls
blocklist_calls-Lasts jti time [] bl early lasts = lasts
blocklist_calls-Lasts jti time (c ∷ cs) bl early lasts =
    blocklist_calls-Lasts jti time cs (blocklist_call c bl) early.1
      (blocklist_call-Lasts jti time c bl early.0 lasts)

added :
    (jti user_id : String) (exp : ℕ) (bl : Blocklist)
    → Lasts jti exp (add_revocation jti user_id exp false bl).1
unfolding add_revocation
added jti user_id exp bl = (exp, lookup-insert_self jti exp bl.entries, omega arith)

-- A token whose revocation the store accepted is revoked after any later calls up to its expiry, if
-- none of them replaces the expiry by an earlier one.
pub revoked_until_expiry :
    (jti user_id : String) (exp : ℕ) (bl : Blocklist) (cs : List BlocklistCall)
    → All (NotAfter jti exp) cs
    → is_revoked jti (blocklist_calls cs (add_revocation jti user_id exp false bl).1) ≡ true
unfolding is_revoked
revoked_until_expiry jti user_id exp bl cs early =
    let (e, here, long) =
      blocklist_calls-Lasts jti exp cs (add_revocation jti user_id exp false bl).1 early
        (added jti user_id exp bl) in
    ground (arith, here)
