-- ===== src/ControlPlane/Registry/Orgs.antt =====
-- apps/api/src/phulax_api/routers/orgs.py
use phulax.Prelude.{
  ℕ, String, Bool, ◌&&◌, Option, none, some, List, [], ◌∷◌, ◌++◌, keep, str_eq, ◌==◌, if◌then◌else◌,
  Result, ok, err,
}
use phulax.ControlPlane.Tables.{find, id_filter, text_filter}
use phulax.ControlPlane.Db.{Organization, User, Db, HttpError, has_organization}

-- schemas.UserCreate
pub record UserCreate : Type 0 where
  pub org_id : ℕ
  pub email : String
  pub name : String
  pub role : Option String

abbrev pub is_named : String → Organization → Bool
is_named name o = str_eq o.name name

-- The unique key of `users`.
abbrev pub has_email : ℕ → String → User → Bool
has_email org_id email u = (u.org_id == org_id) && str_eq u.email email

abbrev pub new_user : ℕ → UserCreate → User
new_user new_id body = record {
  id = new_id;
  org_id = body.org_id;
  email = body.email;
  name = body.name;
  role = body.role;
}

module _ {J : Type 0} where
  unfoldable pub create_organization : ℕ → String → Db J → Result HttpError (Organization × Db J)
  create_organization new_id name db = elim (find (is_named name) db.organizations) [
    | some existing ↦ err (record { status = 409; code = "organization already exists" })
    | none ↦
        let org : Organization = record { id = new_id; name = name } in
        ok (org, record db { organizations = db.organizations ++ (org ∷ []) })
  ]

  unfoldable pub list_organizations : Option String → Db J → List Organization
  list_organizations name db = keep (λ o. text_filter name o.name) db.organizations

  unfoldable pub create_user : ℕ → UserCreate → Db J → Result HttpError (User × Db J)
  create_user new_id body db =
      if has_organization body.org_id db
      then elim (find (has_email body.org_id body.email) db.users) [
        | some existing ↦ err (record { status = 409; code = "user already exists" })
        | none ↦
            ok (new_user new_id body, record db { users = db.users ++ (new_user new_id body ∷ []) })
      ]
      else err (record { status = 404; code = "organization not found" })

  unfoldable pub list_users : Option ℕ → Option String → Db J → List User
  list_users org_id email db =
      keep (λ u. id_filter org_id u.org_id && text_filter email u.email) db.users
