-- ===== src/Tests/Access.antt =====
-- A cashier who logs out, and one who is dismissed.
use k_pos_be.Common.{
  ◌≡◌, ◌≢◌, ◌≤◌, String, true, false, some, refl, [], ◌∷◌, ◌==◌, Mem, arith, Bool-cases, inl, inr,
}
use k_pos_be.Schema.{User, UserRole, RefreshToken}
use k_pos_be.User.{JwtPayload}
use k_pos_be.Prisma.Memory.{client, in_memory}
use k_pos_be.Prisma.Counts.{count_by}
use k_pos_be.Prisma.Action.{
  World, ok, ◌>>=◌, pure, throw, throw_if, branch, or_throw, call, read, find_first, update,
  update_in,
}
use k_pos_be.Auth.{Tokens, refresh, logout, validate}
use k_pos_be.Auth.Leaving.{logout-ends, update_status-ends}
use k_pos_be.Users.{update_status}
use k_pos_be.Tests.Fixture.{shop, world_of, plain_hashes}

abbrev cashier : User
cashier = record {
  id_user = "budi";
  full_name = "Budi";
  email = "budi";
  password = "";
  role = UserRole.operator;
  id_merchant = some "shop";
  is_active = true;
}

abbrev token_of : String → RefreshToken
token_of token = record { id = token; id_user = "budi"; token = token; expires_at = 1000 }

abbrev employed : World
employed =
    world_of (record shop {
      users = cashier ∷ [];
      refresh_tokens = token_of "till" ∷ token_of "phone" ∷ [];
    })

left : World
left = (logout client "till" employed).1

leaves : logout client "till" employed ≡ (ok tt, left)
unfolding left logout in_memory call
leaves = refl

logout-ends_example :
    ((again : Tokens) → (refresh client plain_hashes "till" left).0 ≢ ok again)
    × ((r : RefreshToken)
        → Mem r employed.db.refresh_tokens
        → r.token ≢ "till"
        → Mem r left.db.refresh_tokens)
logout-ends_example = logout-ends client plain_hashes "till" employed left leaves

dismissed : World
dismissed = (update_status client "budi" "shop" false employed).1

dismisses :
    update_status client "budi" "shop" false employed
    ≡ (ok (record cashier { is_active = false }), dismissed)
unfolding dismissed update_status in_memory ◌>>=◌ pure throw throw_if branch or_throw call read
    find_first update update_in
dismisses = refl

alone : (i : String) → count_by (λ u. u.id_user == i) employed.db.users ≤ 1
unfolding count_by
alone i = elim (Bool-cases (cashier.id_user == i)) [
  | inl h ↦ rw h (omega arith)
  | inr h ↦ rw h (omega arith)
]

abbrev card : JwtPayload
card = record { sub = "budi"; email = "budi"; role = "OPERATOR"; id_merchant = "shop" }

update_status-ends_example : (validate client card dismissed).0 ≢ ok card
update_status-ends_example =
    update_status-ends client "budi" "shop" (record cashier { is_active = false }) card card
      employed dismissed alone dismisses refl
