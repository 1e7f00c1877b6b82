-- ===== src/System/Handle/Ownership.antt =====
-- basic_handle.hpp: a program that makes, moves and destroys handles.
use cmake_template.Base.{
  ℕ, ◌+◌, ◌≡◌, refl, true, List, [], ◌∷◌, ◌++◌, Option, none, some, get_elem?, set, weigh,
  weigh-append, weigh-set, if◌then◌else◌, arith,
}
use cmake_template.System.Handle.{Resource, is_valid, move_construct, destruct}

module _ (r : Resource) where
  open r use {Native, invalid_value, same, same_iff}

  -- The handle objects in the order of their construction, `none` once destroyed; the history: the
  -- values that `Resource::construct` returned, and those given to `Resource::destroy`.
  pub record Program : Type 0 where
    pub handles : List (Option Native)
    pub opened : List Native
    pub closed : List Native

  abbrev pub no_handles : Program
  no_handles = record { handles = []; opened = []; closed = [] }

  pub data Step (p : Program) : Program → Type 0 where
    constructs :
        (v : Native)
        → is_valid r v ≡ true
        → Step p (record p { handles = p.handles ++ (some v ∷ []); opened = p.opened ++ (v ∷ []) })
    moves :
        (i : ℕ) (v : Native)
        → get_elem? p.handles i ≡ some (some v)
        → Step p (record p {
          handles =
              set p.handles i (some (move_construct r v).1) ++ (some (move_construct r v).0 ∷ []);
        })
    destroys :
        (i : ℕ) (v : Native)
        → get_elem? p.handles i ≡ some (some v)
        → Step p (record p { handles = set p.handles i none; closed = p.closed ++ destruct r v })

  pub data Reach : Program → Type 0 where
    start : Reach no_handles
    later : {p q : Program} → Reach p → Step p q → Reach q

  module _ (w : Native → ℕ) where
    abbrev weigh_handle : Option Native → ℕ
    weigh_handle none = 0
    weigh_handle (some v) = if is_valid r v then w v else 0

    -- The resources that the living handles own.
    abbrev pub owned : List (Option Native) → ℕ
    owned = weigh weigh_handle

    abbrev Balanced : Program → Type 0
    Balanced p = weigh w p.closed + owned p.handles ≡ weigh w p.opened

    invalid_weight : weigh_handle (some invalid_value) ≡ 0
    unfolding is_valid
    invalid_weight = rw ((same_iff invalid_value invalid_value).1 refl)

    destruct-weight : (v : Native) → weigh w (destruct r v) ≡ weigh_handle (some v)
    unfolding destruct
    destruct-weight v = ground arith

    Step-Balanced : {p q : Program} → Step p q → Balanced p → Balanced q
    unfolding move_construct
    Step-Balanced {p} (constructs v h) b =
        let whole : weigh_handle (some v) ≡ w v = rw h in
        omega (
          arith,
          b,
          weigh-append weigh_handle p.handles (some v ∷ []),
          weigh-append w p.opened (v ∷ []),
          whole,
        )
    Step-Balanced {p} (moves i v e) b =
        let emptied = set p.handles i (some invalid_value) in
        omega (
          arith,
          b,
          weigh-append weigh_handle emptied (some v ∷ []),
          weigh-set weigh_handle p.handles i (some v) (some invalid_value) e,
          invalid_weight,
        )
    Step-Balanced {p} (destroys i v e) b = omega (
      arith,
      b,
      weigh-append w p.closed (destruct r v),
      weigh-set weigh_handle p.handles i (some v) none e,
      destruct-weight v,
    )

    Reach-Balanced : {p : Program} → Reach p → Balanced p
    Reach-Balanced start = refl
    Reach-Balanced (later a st) = Step-Balanced st (Reach-Balanced a)

    -- Each resource has one owner. Whatever handles a program constructs, move-constructs and
    -- destroys, in any order: the resources destroyed so far and those that the living handles own
    -- are the resources constructed, by any weight `w` on native values.
    pub one_owner : {p : Program} → Reach p → weigh w p.closed + owned p.handles ≡ weigh w p.opened
    one_owner a = Reach-Balanced a
