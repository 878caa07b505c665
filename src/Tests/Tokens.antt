-- ===== src/Tests/Tokens.antt =====
-- A refresh token that is presented twice.
use k_pos_be.Common.{◌≡◌, eq_iff, ◌≢◌, refl, [], ◌∷◌, ◌==◌, arith, Bool-cases, inl, inr}
use k_pos_be.Schema.{RefreshToken}
use k_pos_be.Prisma.Memory.{client, in_memory}
use k_pos_be.Prisma.Counts.{count_by}
use k_pos_be.Prisma.Action.{
  World, ok, ◌>>=◌, pure, throw, throw_if, branch, or_throw, call, read, now, fresh_id, create,
  create_in, delete, delete_in,
}
use k_pos_be.Auth.{Tokens, refresh, find_token, issue_refresh_token}
use k_pos_be.Auth.Rotation.{HasKeys, IsRotated, refresh-IsRotated, refresh-once}
use k_pos_be.Tests.Fixture.{shop, world_of, plain_hashes}

abbrev old : RefreshToken
old = record { id = "r1"; id_user = "ani"; token = "old"; expires_at = 1000 }

abbrev signed_in : World
signed_in = world_of (record shop { refresh_tokens = old ∷ [] })

few : HasKeys signed_in.db
unfolding count_by
few = record {
  ids = λ i. elim (Bool-cases (old.id == i)) [
    | inl h ↦ rw h (omega arith)
    | inr h ↦ rw h (omega arith)
  ];
  tokens = λ t. elim (Bool-cases (old.token == t)) [
    | inl h ↦ rw h (omega arith)
    | inr h ↦ rw h (omega arith)
  ];
}

abbrev handed_out : Tokens
handed_out = record { access_token = "signed"; refresh_token = "token" }

rotated_world : World
rotated_world = (refresh client plain_hashes "old" signed_in).1

refreshes : refresh client plain_hashes "old" signed_in ≡ (ok handed_out, rotated_world)
unfolding rotated_world refresh find_token issue_refresh_token in_memory ◌>>=◌ pure throw throw_if
    branch or_throw call read now fresh_id create create_in delete delete_in
refreshes = refl

refresh-IsRotated_example : IsRotated "old" handed_out signed_in.db rotated_world.db
refresh-IsRotated_example =
    refresh-IsRotated client plain_hashes "old" handed_out signed_in rotated_world few refreshes

refresh-once_example : (refresh client plain_hashes "old" rotated_world).0 ≢ ok handed_out
refresh-once_example =
    refresh-once client plain_hashes "old" handed_out handed_out signed_in rotated_world few
      refreshes (λ e. absurd (let clash = (eq_iff "token" "old").1 e in cc))
