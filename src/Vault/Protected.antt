-- ===== src/Vault/Protected.antt =====
-- The profiles of the system are kept.
use Prim.Native.Char.{code}
use Prim.Native.String.{◌++◌ as append}
use mathlib.Core.Option
use mathlib.Core.Bool
use caam_account_switching.Prelude.{
  ℕ, String, true, false, some, List, [], ◌∷◌, ◌==◌, ◌≡◌, refl, sym, ap, ◌∙◌, arith, str_eq,
  Bool-cases, Option-cases, inl, inr, eq_iff,
}
use caam_account_switching.Prelude.Table.{
  Table, lookup, put, lookup-put, lookup-remove, has_key, lookup_of_not-has_key,
}
use caam_account_switching.Vault.Names.{
  is_space, trim_left, trim_right, trim_space, has_underscore, is_system_profile,
  validate_vault_segment,
}
use caam_account_switching.Vault.Copying.{AuthFileSet, VaultError, protected, stat_failed, verdict}
use caam_account_switching.Vault.Operations.{
  Env, World, set_profile, metadata, backup_loop, refusal, backup_files, backup_as, backup,
  restore_files, restore_from, restore, delete_force, delete, has_original_backup,
  original_profile_name, has_auth_files,
}
use caam_account_switching.Vault.Automatic.{backup_original, backup_current}
use caam_account_switching.Vault.Detection.{active_profile}
use caam_account_switching.Vault.RoundTrip.{backup_run}

is_space_underscore : (c : ℕ) → (c == 95) ≡ true → is_space c ≡ false
unfolding is_space
is_space_underscore c h = ground arith

-- A name that starts with an underscore is that of a system profile.
pub has_underscore-system : (p : String) → has_underscore p ≡ true → is_system_profile p ≡ true
unfolding has_underscore is_system_profile trim_space trim_left trim_right
has_underscore-system String.[] h = h
has_underscore-system (String.◌∷◌ c rest) h =
    rw (is_space_underscore (code c) h, trim_right, is_space_underscore (code c) h)
      (elim (Bool-cases (str_eq (trim_right rest) "")) [ inl e ↦ rw e h | inr e ↦ rw e h ])

-- Whatever happens in the loop of a backup, only the directory of its profile changes.
pub backup_loop-world :
    (e : Env) (fs : AuthFileSet) (p : String) (w : World)
    → (dir : Table String) × ((backup_loop e fs p w).0 ≡ set_profile p dir w)
unfolding backup_loop
backup_loop-world e fs p w = elim (Option-cases (verdict fs (backup_run e fs p w))) [
  | inr (x, v) ↦ ((backup_run e fs p w).dir, rw (backup_loop, v) refl)
  | inl v ↦ elim (Option-cases e.meta_error) [
    | inr (x, q) ↦ ((backup_run e fs p w).dir, rw (backup_loop, v, q) refl)
    | inl q ↦
        let r = backup_run e fs p w in
        (put "meta.json" (e.encode (metadata e fs p r)) r.dir, rw (backup_loop, v, q) refl)
  ]
]

refusal-system :
    (e : Env) (q : String) (w : World)
    → is_system_profile q ≡ true
    → has_key q w.vault ≡ true
    → (x : VaultError) × (refusal e q w ≡ some x)
unfolding refusal
refusal-system e q w s k = elim (Option-cases e.stat_error) [
  | inl o ↦ (protected, rw (refusal, s, o, k) refl)
  | inr (x, o) ↦ (stat_failed x, rw (refusal, s, o) refl)
]

validate-trim_space : (name q : String) → validate_vault_segment name ≡ some q → q ≡ trim_space name
unfolding validate_vault_segment
validate-trim_space name q h = ground (arith, h)

is_system_profile_lem : (name : String) → is_system_profile name ≡ has_underscore (trim_space name)
unfolding is_system_profile
is_system_profile_lem name = refl

pub has_key_of_lookup :
    (p : String) (dir : Table String) (vault : Table (Table String))
    → lookup p vault ≡ some dir
    → has_key p vault ≡ true
has_key_of_lookup p dir vault h = elim (Bool-cases (has_key p vault)) [
  | inl there ↦ there
  | inr gone ↦ absurd (Option.none-ne-some dir (sym (lookup_of_not-has_key p vault gone) ∙ h))
]

-- The world still has the directory of the profile as it was.
abbrev pub Keeps : String → Table String → World → Type 0
Keeps p dir w = lookup p w.vault ≡ some dir

module _ (p : String) (dir : Table String) (system : has_underscore p ≡ true) where
  backup-Keeps :
      (e : Env) (fs : AuthFileSet) (name : String) (w : World)
      → Keeps p dir w
      → Keeps p dir (backup e fs name w).0
  unfolding backup backup_as backup_files
  backup-Keeps e fs name w h = elim (Option-cases (validate_vault_segment name)) [
    | inl v ↦ rw (backup, v) h
    | inr (q, v) ↦ elim (Option-cases (refusal e q w)) [
      | inr (x, b) ↦ rw (backup, v, backup_as, b) h
      | inl b ↦ elim (Option-cases e.make_dir_error) [
        | inr (x, d) ↦ rw (backup, v, backup_as, b, backup_files, d) h
        | inl d ↦
            let (d', changed) = backup_loop-world e fs q w in
            rw (backup, v, backup_as, b, backup_files, d, changed, lookup-put q p d' w.vault)
              (elim (Bool-cases (str_eq q p)) [
                | inl same ↦
                    let known : has_key q w.vault ≡ true =
                      rw ((eq_iff q p).0 same) (has_key_of_lookup p dir w.vault h) in
                    let of_system : is_system_profile q ≡ true =
                      rw ((eq_iff q p).0 same) (has_underscore-system p system) in
                    let (x, barred) = refusal-system e q w of_system known in
                    absurd (Option.none-ne-some x (sym b ∙ barred))
                | inr apart ↦ rw apart h
              ])
      ]
    ]
  ]

  delete-Keeps : (name : String) (w : World) → Keeps p dir w → Keeps p dir (delete name w).0
  unfolding delete delete_force
  delete-Keeps name w h = elim (Bool-cases (is_system_profile name)) [
    | inl s ↦ rw (delete, s) h
    | inr s ↦ elim (Option-cases (validate_vault_segment name)) [
      | inl v ↦ rw (delete, s, delete_force, v) h
      | inr (q, v) ↦
          rw (delete, s, delete_force, v, lookup-remove q p w.vault)
            (elim (Bool-cases (str_eq q p)) [
              | inl same ↦
                  let trimmed : p ≡ trim_space name =
                    sym ((eq_iff q p).0 same) ∙ validate-trim_space name q v in
                  absurd (
                    Bool.true≢false (
                      sym system
                      ∙ ap has_underscore trimmed
                      ∙ sym (is_system_profile_lem name)
                      ∙ s))
              | inr apart ↦ rw apart h
            ])
    ]
  ]

  restore-Keeps :
      (e : Env) (fs : AuthFileSet) (name : String) (w : World)
      → Keeps p dir w
      → Keeps p dir (restore e fs name w).0
  unfolding restore restore_from restore_files
  restore-Keeps e fs name w h = elim (Option-cases (validate_vault_segment name)) [
    | inl v ↦ rw (restore, v) h
    | inr (q, v) ↦ elim (Option-cases (lookup q w.vault)) [
      | inl gone ↦ rw (restore, v, gone) h
      | inr (d, there) ↦ rw (restore, v, there) h
    ]
  ]

  backup_original-Keeps :
      (e : Env) (fs : AuthFileSet) (w : World)
      → Keeps p dir w
      → Keeps p dir (backup_original e fs w).0
  unfolding backup_original
  backup_original-Keeps e fs w h =
      let kept = backup-Keeps e fs original_profile_name w h in
      elim (Option-cases e.stat_error) [
        | inr (x, o) ↦ rw (backup_original, o) h
        | inl o ↦ elim (Bool-cases (has_original_backup w)) [
          | inl b ↦ rw (backup_original, o, b) h
          | inr b ↦ elim (Bool-cases (has_auth_files fs w)) [
            | inr f ↦ rw (backup_original, o, b, f) h
            | inl f ↦ elim (Option-cases e.active_error) [
              | inr (x, g) ↦ rw (backup_original, o, b, f, g) h
              | inl g ↦ elim (Bool-cases (str_eq (active_profile e fs w) "")) [
                | inr a ↦ rw (backup_original, o, b, f, g, a) h
                | inl a ↦ elim (Option-cases (backup e fs original_profile_name w).1) [
                  | inl ok ↦ rw (backup_original, o, b, f, g, a, ok) kept
                  | inr (x, bad) ↦ rw (backup_original, o, b, f, g, a, bad) kept
                ]
              ]
            ]
          ]
        ]
      ]

  backup_current-Keeps :
      (e : Env) (fs : AuthFileSet) (w : World)
      → Keeps p dir w
      → Keeps p dir (backup_current e fs w).0
  unfolding backup_current
  backup_current-Keeps e fs w h =
      let name = append "_backup_" e.stamp in
      let kept = backup-Keeps e fs name w h in
      elim (Bool-cases (has_auth_files fs w)) [
        | inr f ↦ rw (backup_current, f) h
        | inl f ↦ elim (Option-cases (backup e fs name w).1) [
          | inl ok ↦ rw (backup_current, f, ok) kept
          | inr (x, bad) ↦ rw (backup_current, f, bad) kept
        ]
      ]

-- The calls that do not force, and what the tools do to their live files.
pub data Call : Type 0 where
  backs_up restores : Env → AuthFileSet → String → Call
  backs_up_current backs_up_original : Env → AuthFileSet → Call
  deletes : String → Call
  rewrites : Table String → Call

unfoldable pub call : Call → World → World
call (backs_up e fs name) w = (backup e fs name w).0
call (restores e fs name) w = (restore e fs name w).0
call (backs_up_current e fs) w = (backup_current e fs w).0
call (backs_up_original e fs) w = (backup_original e fs w).0
call (deletes name) w = (delete name w).0
call (rewrites home) w = record w { home = home }

unfoldable pub after_calls : List Call → World → World
unfolding call
after_calls [] w = w
after_calls (c ∷ cs) w = after_calls cs (call c w)

call-Keeps :
    (p : String) (dir : Table String) (c : Call) (w : World)
    → has_underscore p ≡ true
    → Keeps p dir w
    → Keeps p dir (call c w)
unfolding call
call-Keeps p dir (backs_up e fs name) w s h = backup-Keeps p dir s e fs name w h
call-Keeps p dir (restores e fs name) w s h = restore-Keeps p dir s e fs name w h
call-Keeps p dir (backs_up_current e fs) w s h = backup_current-Keeps p dir s e fs w h
call-Keeps p dir (backs_up_original e fs) w s h = backup_original-Keeps p dir s e fs w h
call-Keeps p dir (deletes name) w s h = delete-Keeps p dir s name w h
call-Keeps p dir (rewrites home) w s h = h

-- A system profile of the vault, one whose name starts with an underscore, keeps its files through
-- every sequence of backups, restores, automatic backups and deletions without force, under
-- whatever names, and whatever the tools do to the live files.
pub after_calls-Keeps :
    (p : String) (dir : Table String) (cs : List Call) (w : World)
    → has_underscore p ≡ true
    → Keeps p dir w
    → Keeps p dir (after_calls cs w)
unfolding after_calls
after_calls-Keeps p dir [] w s h = h
after_calls-Keeps p dir (c ∷ cs) w s h =
    after_calls-Keeps p dir cs (call c w) s (call-Keeps p dir c w s h)
