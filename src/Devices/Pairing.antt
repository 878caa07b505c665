-- ===== src/Devices/Pairing.antt =====
-- The pairing of a cash register by its code.
use mathlib.Core.List.Perm
use mathlib.Core.List.{mem-cons}
use mathlib.Core.Logic.Or
use k_pos_be.Common.{
  ◌≤◌, ◌≡◌, ◌≢◌, refl, ◌∙◌, ap, sym, String, Bool, true, some, List, ◌∷◌, Mem, Perm, ◌==◌, eq_refl,
  arith, subst, not-false, Bool-cases, inl, inr,
}
use k_pos_be.Schema.{Db, Device, devices, same_key, is_unpaired}
use k_pos_be.Crypto.{Crypto}
use k_pos_be.Prisma.{Prisma}
use k_pos_be.Prisma.Action.{
  World, Action, Result, ok, err, Error, bad_request, unauthorized, forbidden, not_found, conflict,
  service_unavailable, internal, unhealthy, sync_exception, database, find_first, pure, throw,
  try_catch, recover, update,
}
use k_pos_be.Prisma.Inversion.{bind-ok, read-ok}
use k_pos_be.Prisma.Steps.{throw_if-ok, or_throw-ok, update-ok}
use k_pos_be.Prisma.Counts.{count_by, count_by-cons, count_by-perm, lone, none-fits}
use k_pos_be.Devices.{pair, pair_device, conflict_on_hardware}

-- the register waits for this code
abbrev pub waits : String → Device → Bool
waits code d = same_key d.pairing_code (some code)

-- one row at most has each id, and one at most each code
pub record HasKeys (db : Db) : Type 0 where
  pub ids : (i : String) → count_by (λ d. d.id_device == i) db.devices ≤ 1
  pub codes : (c : String) → count_by (waits c) db.devices ≤ 1

-- What a pairing has done: a register that waited for the code, and was not paired before, has the
-- hash of the hardware and no code, and every other register is as it was.
pub record IsPaired (code hash : String) (db db' : Db) : Type 0 where
  pub register : Device
  pub others : List Device
  pub waited : waits code register ≡ true
  pub unpaired : is_unpaired register.status ≡ true
  pub before : Perm db.devices (register ∷ others)
  pub after : Perm db'.devices (pair hash register ∷ others)

conflict-err :
    {A : Type 0} (e : Error) (a : A) (w w' : World) → conflict_on_hardware e w ≢ (ok a, w')
unfolding throw
conflict-err (database e) a w w' h = elim (Bool-cases (e.code == "P2002")) [
  | inl k ↦ let clash = rw k at h in cc
  | inr k ↦ let clash = rw k at h in cc
]
conflict-err (bad_request s) a w w' h = cc
conflict-err (unauthorized s) a w w' h = cc
conflict-err (forbidden s) a w w' h = cc
conflict-err (not_found s) a w w' h = cc
conflict-err (conflict s) a w w' h = cc
conflict-err (service_unavailable s) a w w' h = cc
conflict-err (internal s) a w w' h = cc
conflict-err (unhealthy s) a w w' h = cc
conflict-err (sync_exception c s) a w w' h = cc

guarded-ok :
    {A : Type 0} (m : Action A) (a : A) (w w' : World)
    → try_catch m pure conflict_on_hardware w ≡ (ok a, w')
    → m w ≡ (ok a, w')
unfolding try_catch pure
guarded-ok {A} m a w w' h = go (m w) refl h
  where
    go :
        (x : Result A × World)
        → m w ≡ x
        → recover x.0 pure conflict_on_hardware x.1 ≡ (ok a, w')
        → m w ≡ (ok a, w')
    go (ok b, v) e k = e ∙ k
    go (err f, v) e k = absurd (conflict-err f a v w' k)

module _ (prisma : Prisma) (crypto : Crypto) (code hardware : String) where
  pairing-listed :
      (d : Device) (w w' : World)
      → pair_device prisma crypto code hardware w ≡ (ok d, w')
      → (r : Device) × Mem r w.db.devices
        × (waits code r ≡ true)
        × (is_unpaired r.status ≡ true)
        × (v : World) × (v.db ≡ w.db)
        × (update prisma devices (λ x. x.id_device == r.id_device) (pair (crypto.sha256 hardware)) v
            ≡ (ok d, w'))
  unfolding pair_device find_first
  pairing-listed d w w' h =
      let (o, a, e₁, h₁) = bind-ok _ _ w h in
      let (found, same₁) = read-ok prisma _ w a o e₁ in
      let (r, b, e₂, h₂) = bind-ok _ _ a h₁ in
      let (some_row, same₂) = or_throw-ok _ _ a b r e₂ in
      let (_, c, e₃, h₃) = bind-ok _ _ b h₂ in
      let (free, same₃) = throw_if-ok _ _ b c e₃ in
      let (fits, listed) = prisma.find-some _ _ r (found ∙ some_row) in
      (
        r,
        listed,
        fits,
        not-false free,
        c,
        ap (λ x. x.db) same₃ ∙ ap (λ x. x.db) same₂ ∙ same₁,
        guarded-ok _ d c w' h₃,
      )

  -- A pairing that returned has paired the register that waited for the code, and that register only,
  -- where no two registers share an id or a code.
  pub pair_device-IsPaired :
      (d : Device) (w w' : World)
      → HasKeys w.db
      → pair_device prisma crypto code hardware w ≡ (ok d, w')
      → IsPaired code (crypto.sha256 hardware) w.db w'.db
  pair_device-IsPaired d w w' keys h =
      let (r, listed, fits, free, v, same, e) = pairing-listed d w w' h in
      let done = update-ok prisma devices _ _ v w' d e in
      let table : Perm w.db.devices (done.row ∷ done.rest) =
        subst (λ (x : Db). Perm x.devices (done.row ∷ done.rest)) same done.before in
      let is_row = λ (q : Device → Bool).
        lone (λ x. x.id_device == r.id_device) q r done.row _ done.rest table (keys.ids r.id_device)
          done.fits (eq_refl r.id_device) listed in
      record {
        register = done.row;
        others = done.rest;
        waited = is_row (waits code) fits;
        unpaired = is_row (λ x. is_unpaired x.status) free;
        before = table;
        after =
            subst (λ (x : Db). Perm x.devices (pair (crypto.sha256 hardware) done.row ∷ done.rest))
              (sym done.written) done.after;
      }

module _ (prisma : Prisma) (crypto : Crypto) (code hardware : String) where
  -- A code is good once: where no two registers share an id or a code, a second pairing with the code
  -- of a pairing that returned does not return, by the same device or another.
  pub pair-once :
      (other : String) (d again : Device) (w w' : World)
      → HasKeys w.db
      → pair_device prisma crypto code hardware w ≡ (ok d, w')
      → (pair_device prisma crypto code other w').0 ≢ ok again
  pair-once other d again w w' keys h e =
      let end = (pair_device prisma crypto code other w').1 in
      let paired = pair_device-IsPaired prisma crypto code hardware d w w' keys h in
      let (r, listed, fits, _, _, _, _) =
        pairing-listed prisma crypto code other again w' end (ap (λ x. (x, end)) e) in
      Or.elim (λ x y. absurd x) (mem-cons.0 ((Perm.mem_iff paired.after).0 listed))
        (λ k. let clash = rw k at fits in cc)
        (λ k. absurd (
          let most = keys.codes code in
          let same = count_by-perm (waits code) paired.before in
          let first = count_by-cons (waits code) paired.register paired.others in
          let waited = paired.waited in
          let more = none-fits (waits code) r paired.others k fits in ground arith))
