-- ===== src/Tabs/Tests.antt =====
-- The store of multipleTab.ts on a few tabs.
use kerthus.Base.{
  ℕ, ◌≤◌, ◌≡◌, refl, String, Bool, true, false, List, [], ◌∷◌, Option, none, some, AreDistinct,
  arith,
}
use kerthus.Tabs.{Meta, Tab, TabState, Nav, World}
use kerthus.Tabs.Open.{add_tab}
use kerthus.Tabs.Open.Keys.{keys}
use kerthus.Tabs.Open.Limit.{open_count, add_tab_limit}
use kerthus.Tabs.Close.{close_tab}
use kerthus.Tabs.Close.Laws.{full_paths, IsTarget, close_tab_active}
use kerthus.Tabs.Bulk.{close_left_tabs}
use kerthus.Tabs.Kept.{HasKeys}
use kerthus.Tabs.Hook.{close_left, get_current_tab, handle_tab_action}
use kerthus.Tabs.Steps.{opened, left_closed, Run, stop, next, Run-HasKeys}

abbrev info : Bool → Option String → Meta
info affix real_path = record {
  title = "Page";
  affix = affix;
  ignore_keep_alive = false;
  dynamic_level = 2;
  real_path = real_path;
}

abbrev tab : ℕ → String → String → String → Bool → Tab Unit
tab ref name path full_path affix = record {
  ref = ref;
  name = name;
  path = path;
  full_path = full_path;
  params = none;
  query = none;
  info = info affix none;
}

abbrev home_tab : Tab Unit
home_tab = tab 0 "Home" "/home" "/home" true

abbrev users_tab : Tab Unit
users_tab = tab 1 "Users" "/users" "/users" false

abbrev roles_tab : Tab Unit
roles_tab = tab 2 "Roles" "/roles" "/roles" false

abbrev logs_tab : Tab Unit
logs_tab = tab 3 "Logs" "/logs" "/logs" false

abbrev state : List (Tab Unit) → TabState Unit
state tab_list = record {
  cache_tab_list = [];
  tab_list = tab_list;
  last_drag_end_index = 0;
  saved = none;
}

abbrev world : Tab Unit → List (Tab Unit) → World Unit
world current ts = record { store = state ts; current = current; navs = [] }

abbrev four_tabs : List (Tab Unit)
four_tabs = home_tab ∷ users_tab ∷ roles_tab ∷ logs_tab ∷ []

abbrev go_home : Nav Unit → Tab Unit
go_home nav = home_tab

four_tabs-AreDistinct : AreDistinct (keys four_tabs)
four_tabs-AreDistinct = (refl, (refl, (refl, (refl, tt))))

four_tabs_differ : AreDistinct (full_paths four_tabs)
four_tabs_differ = (refl, (refl, (refl, (refl, tt))))

abbrev detail : ℕ → String → String → Tab Unit
detail ref path real_path = record {
  ref = ref;
  name = "Detail";
  path = path;
  full_path = path;
  params = none;
  query = none;
  info = info false (some real_path);
}

abbrev details : List (Tab Unit)
details = detail 5 "/user/1" "/user/:id" ∷ detail 6 "/role/1" "/role/:id" ∷ []

add_tab_limit_example :
    open_count "/user/:id" (add_tab true (detail 7 "/user/2" "/user/:id") (state details)).tab_list
    ≤ 2
add_tab_limit_example =
    add_tab_limit true (detail 7 "/user/2" "/user/:id") (state details) refl (omega arith)
      (omega arith)

close_tab_active_example :
    (nav : Nav Unit) × IsTarget "/profile" four_tabs 1 nav
    × (close_tab "/profile" go_home users_tab (world users_tab four_tabs)
        ≡ some (record {
          store = record (state four_tabs) { tab_list = home_tab ∷ roles_tab ∷ logs_tab ∷ [] };
          current = go_home nav;
          navs = nav ∷ [];
        }))
close_tab_active_example =
    close_tab_active "/profile" go_home users_tab (world users_tab four_tabs) 1 four_tabs_differ
      refl refl

abbrev asked : List (Tab Unit)
asked =
    tab 1 "Users" "/users" "/users?page=2" false ∷ tab 2 "Roles" "/roles" "/roles?page=1" false ∷ []

abbrev opened_logs : World Unit
opened_logs = record (world users_tab (home_tab ∷ users_tab ∷ [])) {
  store = add_tab true logs_tab (state (home_tab ∷ users_tab ∷ []));
}

run :
    Run "/profile" go_home true
      (world users_tab (home_tab ∷ users_tab ∷ []))
      (close_left_tabs "/profile" go_home logs_tab opened_logs)
run =
    next (opened logs_tab (world users_tab (home_tab ∷ users_tab ∷ [])))
      (next (left_closed logs_tab opened_logs) (stop _))

Run-HasKeys_example : HasKeys (close_left_tabs "/profile" go_home logs_tab opened_logs).store
Run-HasKeys_example = Run-HasKeys "/profile" go_home true run (refl, (refl, tt))

abbrev at_logs : World Unit
at_logs = world logs_tab four_tabs

left_of_logs :
    handle_tab_action "/profile" go_home close_left none at_logs
    ≡ some (close_left_tabs "/profile" go_home logs_tab at_logs)
unfolding handle_tab_action get_current_tab
left_of_logs = refl
