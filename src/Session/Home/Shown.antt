-- ===== src/Session/Home/Shown.antt =====
-- permission.ts, `authorizedHome`: the page is one that a route which is not hidden shows.
use kerthus.Base.{
  ◌≡◌, sym, ap, ◌∙◌, ◌⊎◌, inl, inr, String, str_eq, is_empty, Bool, true, false, not, ◌&&◌, ◌||◌,
  [], ◌∷◌, includes, includes-append, if◌then◌else◌, arith,
}
use kerthus.Tree.{Node, leaf, branch, Forest, nil, cons}
use kerthus.Session.Home.{
  Route, path_below, is_view, is_hidden, pushed, visit, visit_node, is_landing, authorized_home,
  IsLanding, choose-IsLanding, visit-IsLanding,
}

-- A route that is not hidden of itself.
abbrev is_open : Route → Bool
is_open r = not r.hide_menu && not r.meta_hide_menu

below :
    (hidden hide meta page shown x y : Bool)
    → x ≡ (not hidden && page)
    → y ≡ (not (hidden || (hide || meta)) && shown)
    → (x || y) ≡ (not hidden && (page || ((not hide && not meta) && shown)))
below hidden hide meta page shown x y e f = ground (arith, e, f)

regroup :
    (hidden hide meta disabled outside empty layout address part landing at : Bool)
    → ((not (hidden || (hide || meta))
          && (not disabled
              && (not outside
                  && (not empty && (address && (not layout && (not part && landing)))))))
        && at)
      ≡ (not hidden
          && (((not hide && not meta)
                && ((not disabled && not outside)
                    && ((not empty && not layout) && (address && not part))))
              && (landing && at)))
regroup hidden hide meta disabled outside empty layout address part landing at = ground arith

module _ (upper external_url : String → String) where
  -- A route that is a page: it can be used, opens within the application, has a view of its own or,
  -- where it opens a page inside, an address of it, and is no part of another page.
  abbrev is_page : Route → Bool
  is_page r =
      (not r.disabled && not (str_eq r.open_with "outside"))
      && ((not (is_empty (upper r.component))
            && not (includes (upper r.component) ("LAYOUT" ∷ "PARENTLAYOUT" ∷ "IFRAME" ∷ [])))
          && ((not (str_eq r.open_with "inside") || not (is_empty (external_url r.component)))
              && not (includes r.kind ("action" ∷ "field" ∷ []))))

  abbrev is_page_at : Route → (parent path : String) → Bool
  is_page_at r parent path =
      let at = path_below upper external_url parent r in
      (is_open r && is_page r) && (is_landing upper external_url at && str_eq at path)

  -- Whether there is a page with the path, which is one within the application, below a parent, that is
  -- not hidden and has no hidden route above it.
  unfoldable mutual
    pub shows : Forest Route → (parent path : String) → Bool
    shows nil parent path = false
    shows (cons n f) parent path = shows_node n parent path || shows f parent path

    shows_node : Node Route → (parent path : String) → Bool
    shows_node (leaf r) parent path = is_page_at r parent path
    shows_node (branch r f) parent path =
        is_page_at r parent path
        || (is_open r && shows f (path_below upper external_url parent r) path)

  includes-if :
      (p path : String) (b : Bool) → includes path (if b then p ∷ [] else []) ≡ (b && str_eq p path)
  includes-if p path b = ground arith

  includes-pushed :
      (r : Route) (parent path : String) (hidden : Bool)
      → includes path (pushed upper external_url r parent hidden)
        ≡ (not hidden && is_page_at r parent path)
  includes-pushed r parent path hidden =
      let at = path_below upper external_url parent r in
      let c = upper r.component in
      includes-if at path (is_view upper external_url (is_hidden upper external_url hidden r) at r)
      ∙ regroup hidden r.hide_menu r.meta_hide_menu r.disabled (str_eq r.open_with "outside")
          (is_empty c) (includes c ("LAYOUT" ∷ "PARENTLAYOUT" ∷ "IFRAME" ∷ []))
          (not (str_eq r.open_with "inside") || not (is_empty (external_url r.component)))
          (includes r.kind ("action" ∷ "field" ∷ [])) (is_landing upper external_url at)
          (str_eq at path)

  mutual
    unfolding visit shows

    includes-visit :
        (f : Forest Route) (parent path : String) (hidden : Bool)
        → includes path (visit upper external_url f parent hidden)
          ≡ (not hidden && shows f parent path)
    includes-visit nil parent path hidden = ground arith
    includes-visit (cons n f) parent path hidden =
        includes-append path (visit_node upper external_url n parent hidden)
          (visit upper external_url f parent hidden)
        ∙ ground
            (arith, includes-visit_node n parent path hidden, includes-visit f parent path hidden)

    includes-visit_node :
        (n : Node Route) (parent path : String) (hidden : Bool)
        → includes path (visit_node upper external_url n parent hidden)
          ≡ (not hidden && shows_node n parent path)
    includes-visit_node (leaf r) parent path hidden = includes-pushed r parent path hidden
    includes-visit_node (branch r f) parent path hidden =
        includes-append path (pushed upper external_url r parent hidden) (
          visit upper external_url f (path_below upper external_url parent r)
            (is_hidden upper external_url hidden r))
        ∙ below hidden r.hide_menu r.meta_hide_menu (is_page_at r parent path)
            (shows f (path_below upper external_url parent r) path) _ _
            (includes-pushed r parent path hidden)
            (includes-visit f (path_below upper external_url parent r) path
              (is_hidden upper external_url hidden r))

  -- The home page of a user is always a path within the application: it begins with one slash, not
  -- with two, and has no parameter, wildcard, query or fragment. It is the path of a page among the
  -- routes of the answer that has such a path, is not hidden and has no hidden route above it; where
  -- there is no such page it is the page of the profile. The page that the server prefers is taken where it is such a
  -- page.
  pub authorized_home_lem :
      (routes : Forest Route) (preferred : String)
      → let home = authorized_home upper external_url routes preferred in
        IsLanding upper external_url home
        × ((((path : String) → shows routes "" path ≡ false) × (home ≡ "/profile/setting"))
            ⊎ (shows routes "" home ≡ true))
        × (shows routes "" preferred ≡ true → home ≡ preferred)
  unfolding authorized_home
  authorized_home_lem routes preferred =
      let views = visit upper external_url routes "" false in
      let same : (path : String) → includes path views ≡ shows routes "" path =
        λ path. includes-visit routes "" path false in
      let (l, found, first) =
        choose-IsLanding upper external_url preferred views
          (visit-IsLanding upper external_url routes "" false) in
      (
        l,
        elim found [
          | inl (none, e) ↦ inl (λ path. sym (same path) ∙ ap (includes path) none, e)
          | inr e ↦ inr (sym (same _) ∙ e)
        ],
        λ h. first (same preferred ∙ h),
      )
