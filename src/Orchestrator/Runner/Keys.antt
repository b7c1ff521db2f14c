-- ===== src/Orchestrator/Runner/Keys.antt =====
-- Session keys (internal/server/orchestrator/dag_runner.go): the keys in use are those of the running
-- steps, and two running steps never share one.
use claude_plane.Base.{
  ◌≡◌, ◌≢◌, sym, inl, inr, String, Bool, true, false, none, some, arith, Map, get_or, if◌then◌else◌,
  str_eq, eq_iff, Option, ◌⊎◌, ◌∙◌, lookup, insert, delete, lookup-insert, lookup-delete,
  Bool-cases, refl,
}
use claude_plane.Orchestrator.Types.{RunStep, is_running, skipped, running}
use claude_plane.Orchestrator.Runner.Moves.{
  key_free, Core, claim, Move, Drop, Moves, Drops, Many_rule, skips, drops, launches,
}
use claude_plane.Orchestrator.Runner.Moves.Completion.{released}

-- The session key of a running step, and "" for any other.
abbrev pub held_key : Option RunStep → String
held_key none = ""
held_key (some rs) = if is_running rs.status then rs.session_key_snapshot else ""

abbrev pub in_use : String → Map Bool → Bool
in_use = get_or false

-- Over the key that each step holds and the set of keys in use.
pub record KeysAgree (key_of : String → String) (used : String → Bool) : Type 0 where
  -- the key of a running step is in use
  pub held : (i : String) → key_of i ≢ "" → used (key_of i) ≡ true
  -- two running steps do not share a key
  pub exclusive : (i j : String) → key_of i ≢ "" → key_of i ≡ key_of j → i ≡ j

module _ (key_of key_of' : String → String) (used used' : String → Bool)
    (inv : KeysAgree key_of used) where
  -- Some steps may give their key back, while the set stays.
  KeysAgree-shrink :
      ((i : String) → (key_of' i ≡ "") ⊎ (key_of' i ≡ key_of i))
      → ((k : String) → used' k ≡ used k)
      → KeysAgree key_of' used'
  KeysAgree-shrink less same = record {
    held = λ i h. elim (less i) [
      | inl e ↦ absurd (h e)
      | inr e ↦ rw (same (key_of' i), e) (inv.held i (λ p. h (e ∙ p)))
    ];
    exclusive = λ i j h p. elim (less i) [
      | inl e ↦ absurd (h e)
      | inr e ↦ elim (less j) [
        | inl e' ↦ absurd (h (p ∙ e'))
        | inr e' ↦ inv.exclusive i j (λ q. h (e ∙ q)) (sym e ∙ p ∙ e')
      ]
    ];
  }

  -- One step takes a key that nobody uses.
  KeysAgree-claim :
      (id k : String)
      → used k ≡ false
      → ((i : String) → key_of' i ≡ (if str_eq id i then k else key_of i))
      → ((x : String) → used' x ≡ (if str_eq k x then true else used x))
      → KeysAgree key_of' used'
  KeysAgree-claim id k free keys set = record {
    held = λ i h.
        ground (
          arith,
          keys i,
          set (key_of' i),
          eq_iff id i,
          eq_iff k k,
          eq_iff k (key_of i),
          inv.held i,
        );
    exclusive = λ i j h p. ground (
      arith,
      keys i,
      keys j,
      eq_iff id i,
      eq_iff id j,
      inv.exclusive i j,
      inv.held i,
      inv.held j,
    );
  }

  -- A step gives its key back, and the key leaves the set.
  KeysAgree-release :
      (id : String)
      → key_of id ≢ ""
      → ((i : String) → key_of' i ≡ (if str_eq id i then "" else key_of i))
      → ((x : String) → used' x ≡ (if str_eq (key_of id) x then false else used x))
      → KeysAgree key_of' used'
  KeysAgree-release id holds keys set = record {
    held = λ i h. ground (
      arith,
      keys i,
      set (key_of' i),
      eq_iff id i,
      eq_iff (key_of id) (key_of i),
      inv.held i,
      inv.exclusive id i,
    );
    exclusive =
        λ i j h p. ground (arith, keys i, keys j, eq_iff id i, eq_iff id j, inv.exclusive i j);
  }

abbrev pub KeyInv : Map RunStep → Map Bool → Type 0
KeyInv steps keys = KeysAgree (λ id. held_key (lookup id steps)) (λ k. in_use k keys)

held_key-insert :
    (id : String) (rs : RunStep) (steps : Map RunStep) (i : String)
    → held_key (lookup i (insert id rs steps))
      ≡ (if str_eq id i then held_key (some rs) else held_key (lookup i steps))
held_key-insert id rs steps i = ground (arith, lookup-insert id i rs steps)

in_use-insert :
    (k : String) (keys : Map Bool) (x : String)
    → in_use x (insert k true keys) ≡ (if str_eq k x then true else in_use x keys)
in_use-insert k keys x = ground (arith, lookup-insert k x true keys)

in_use-delete :
    (k : String) (keys : Map Bool) (x : String)
    → in_use x (delete k keys) ≡ (if str_eq k x then false else in_use x keys)
in_use-delete k keys x = ground (arith, lookup-delete k x keys)

-- A step that does not run, or has no key, is written.
pub KeyInv-idle :
    (id : String) (rs : RunStep) (steps : Map RunStep) (keys : Map Bool)
    → held_key (some rs) ≡ ""
    → KeyInv steps keys
    → KeyInv (insert id rs steps) keys
KeyInv-idle id rs steps keys idle inv =
    KeysAgree-shrink _ _ _ _ inv (λ i. ground (arith, held_key-insert id rs steps i)) (λ k. refl)

-- A step is launched whose key is free.
pub KeyInv-launch :
    (id : String) (rs : RunStep) (steps : Map RunStep) (keys : Map Bool)
    → key_free rs keys ≡ true
    → is_running rs.status ≡ true
    → KeyInv steps keys
    → KeyInv (insert id rs steps) (claim rs keys)
KeyInv-launch id rs steps keys free runs inv =
    elim (Bool-cases (str_eq rs.session_key_snapshot "")) [
      | inl keyless ↦
          rw keyless
            (KeyInv-idle id rs steps keys (ground (arith, eq_iff rs.session_key_snapshot "")) inv)
      | inr keyed ↦ rw keyed (
          KeysAgree-claim _ _ _ _ inv id rs.session_key_snapshot (ground arith)
            (λ i. ground (arith, held_key-insert id rs steps i))
            (in_use-insert rs.session_key_snapshot keys))
    ]

-- A running step stops, and gives its key back.
pub KeyInv-release :
    (id : String) (rs rs' : RunStep) (steps : Map RunStep) (keys : Map Bool)
    → lookup id steps ≡ some rs
    → is_running rs.status ≡ true
    → is_running rs'.status ≡ false
    → KeyInv steps keys
    → KeyInv (insert id rs' steps) (released rs keys)
KeyInv-release id rs rs' steps keys found runs stops inv =
    elim (Bool-cases (str_eq rs.session_key_snapshot "")) [
      | inl keyless ↦ rw keyless (KeyInv-idle id rs' steps keys (ground arith) inv)
      | inr keyed ↦ rw keyed (
          KeysAgree-release _ _ _ _ inv id (ground (arith, eq_iff rs.session_key_snapshot ""))
            (λ i. ground (arith, held_key-insert id rs' steps i))
            (λ x. ground (arith, in_use-delete rs.session_key_snapshot keys x)))
    ]

abbrev pub KeyInvCore : Core → Type 0
KeyInvCore c = KeyInv c.steps c.keys

Move-KeyInv : (c d : Core) → Move c d → KeyInvCore c → KeyInvCore d
Move-KeyInv c d (skips id rs found waiting) inv =
    KeyInv-idle id (record rs { status = skipped }) c.steps c.keys refl inv
Move-KeyInv c d (launches id rs found waiting free) inv =
    KeyInv-launch id (record rs { status = running }) c.steps c.keys free refl inv

Drop-KeyInv : (c d : Core) → Drop c d → KeyInvCore c → KeyInvCore d
Drop-KeyInv c d (drops id rs s found why) inv =
    KeyInv-idle id (record rs { status = s }) c.steps c.keys (ground arith) inv

pub Moves-KeyInv : {c d : Core} → Moves c d → KeyInvCore c → KeyInvCore d
Moves-KeyInv moves = Many_rule KeyInvCore Move-KeyInv moves

pub Drops-KeyInv : {c d : Core} → Drops c d → KeyInvCore c → KeyInvCore d
Drops-KeyInv moves = Many_rule KeyInvCore Drop-KeyInv moves
