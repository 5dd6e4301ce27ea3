-- ===== src/Lib.antt =====
-- Kerthus, the web console of a platform for tenants (web/admin/src): a verification library of
-- the parts of the console that compute.
--
-- Parts and files:
-- - Tree: utils/helper/treeHelper.ts, which menus, routes and trees of departments are built with.
--   Tree.antt has the nodes: a `leaf` has no `children` field, a `branch` has an array there.
--   Tree/Walk `treeToList`, Tree/ForEach `forEach`, Tree/Path `findPath` and `findPathAll`,
--   Tree/Breadth `findNode` and `findNodeAll`, Tree/Prune `filter`, Tree/Convert `treeMap`,
--   `treeMapEach`, `getChildrenIds` and `eachTree`, Tree/Build `listToTree`, with
--   Tree/Build/Laws for where it puts the objects, Tree/Ancestor `getTopParentId`. A function of the source with an explicit work list is a loop on fuel, with
--   `none` where the fuel runs out: as many rounds as the tree has nodes, and one more, for the
--   walks, and two for every node, and one more, for the paths, which meet each node on the way
--   down and on the way up. The theorems say that this is enough. `listToTree` writes to objects
--   that it is given, so it is modelled on a store of objects. The two callbacks with an effect
--   take a state.
-- - Tabs: store/modules/multipleTab.ts, the store of the open tabs, with `useRedo` of
--   hooks/web/usePage.ts. A `TabState` is the state of the store, and a `World` adds the router:
--   the route that it is at, and the calls that it received. Tabs/Open has `updateCacheTab` and
--   `addTab`, Tabs/Close `closeTab` and `closeTabByKey`, Tabs/Bulk the operations on many tabs,
--   Tabs/Move `sortTabs`, `setTabTitle`, `updateTabPath` and `refreshPage`, and Tabs/Steps makes
--   the operations the steps of a run; `updateTabPath` is one where no other tab has the new path
--   as its key. Tabs/Hook has the actions of hooks/web/useTabs.ts, with
--   Tabs/Hook/Sides for those on one side of a tab. The router is a parameter: `resolve` answers the route that it is at when it has followed a
--   call. An exception is `none`.
-- - TreeHook: components/Tree/src/hooks/useTree.ts, on the trees of Tree. TreeHook/Keys has the
--   lookups of keys, TreeHook/Delete, TreeHook/Update and TreeHook/Select the edits and the search
--   by key, and TreeHook/Levels `filterByLevel`. TreeHook/Insert has the insertions,
--   whose walk goes down only if the field of the children is `children`.
-- - Table: components/Table/src/hooks. Table/Rows is useDataSource.ts on single rows, which are
--   objects of fields in the trees of Tree, with Table/Rows/Items, Table/Rows/Cut and
--   Table/Rows/Found for an edit at the first row that passes a test; Table/Keys has the keys that
--   are made, and Table/Fetch `fetch` with the pagination of usePagination.tsx: it calls itself
--   with an earlier page when the answer has fewer pages, so its fuel is one more than the page
--   that it starts at. Table/Select is useRowSelection.ts with the click of useCustomRow.ts, and
--   Table/Columns useColumns.ts: Table/Columns/Flagged the columns of the indices and the actions,
--   Table/Columns/Order the order of the columns. A sort of the language is an insertion sort,
--   since both are stable. The api answers each request as it likes.
-- - Memory: utils/cache/memory.ts, the cache whose entries expire. A `Memory` has the entries and
--   the timers of the browser that are pending; `fire` is the run of one of them. The wait of a
--   timer is a signed integer of 32 bits, as `setTimeout` takes it. Memory/Timers has the runs, and Memory/Entries what is read behind a write.
-- - Session: store/modules/user.ts and permission.ts, with the entries of the cache and the routes
--   of the router. Session.antt has the state and `logout`, with Session/Logout for its law,
--   Session/Login the actions behind a login, one function for each answer of the server, and
--   Session/Home `authorizedHome`, with Session/Home/Shown for the page that it answers. The names of the routes that `buildRoutesAction` makes are a
--   parameter, and no entry of the cache expires meanwhile.
-- - Routes: router/helper, router/menus/index.ts and utils/externalUrl.ts, on trees of Tree.
--   Routes/Url has the addresses that may leave the application, character by character, with the
--   constructor of URL as a parameter; Routes/Views `dynamicImport`; Routes/Build
--   `transformObjToRoute`, with Routes/Build/Internal and Routes/Build/Frames for what its routes
--   show; Routes/Menu `transformRouteToMenu` and `joinParentPath`; Routes/Shown the menus that are
--   not hidden, and Routes/Roles those left in the mode of roles, with Routes/Roles/Allowed for
--   their law; and Routes/Open components/Menu/src/useOpenKeys.ts, with Routes/Open/Accordion for
--   a click. Routes/Affix is `patchHomeAffix` of store/modules/permission.ts, which fixes the tab
--   of the home page. Routes/Everywhere has the statements on all items of a tree.
--   `flatMultiLevelRoutes`, which asks a router for its records, and `configureDynamicParamsMenu`
--   are not modelled.
-- - Http: utils/http/axios. Http/Cancel is axiosCancel.ts, the map of the pending requests, and
--   Http/Retry is axiosRetry.ts with the failures that lead to it and those that do not: its fuel is any number above
--   the number of the retries that are allowed, which the theorem of Http/Retry/Laws says is enough. Http/Status is
--   checkStatus.ts and unauthorized.ts, which end the session of Session, Http/Response the hooks
--   of index.ts on answers and failures, and Http/ErrorLog the store errorLog.ts that they write
--   to. Http/Before has what comes before a request: `beforeRequestHook`, with
--   `formatRequestDate` and `joinTimestamp` of helper.ts, and Http/Before/Dates and
--   Http/Before/Sent for what is sent; Http/Before/Headers `supportFormData` of Axios.ts,
--   `requestInterceptors` and requestHeaders.ts; and Http/Query `setObjToUrlParams` of
--   utils/index.ts, which Http/Query/Back reads back.
-- - Auth: router/guard/permissionGuard.ts with the ends of `getUserAuthAction` and
--   `getUserInfoAction` of the stores (Auth/Guard), and `hasPermission` of
--   hooks/web/usePermission.ts (Auth/Permission). The calls of the server are parameters that
--   answer or fail; a call that answers leaves the session as it is. The intersection of lodash-es
--   is a parameter that is known by its elements.
-- - Storage: utils/cache/storageCache.ts, with JSON, the cipher and `toUpperCase` as parameters;
--   the theorem asks of them that they give back the data that is stored. Storage/Expiry has the
--   reads.
-- - Persistent: utils/cache/persistent.ts, the two caches of Memory over their storages, with the
--   listeners of the window. Persistent/Reload has what a page that is loaded again finds, with
--   Memory/Reset for `resetCache`, and Persistent/Unload what a page that is left writes.
-- - Value: the values of the language that a form and a request hold, an object being its fields in
--   the order of their insertion, with the tests of utils/is.ts. Value/Maps has the laws of the
--   fields, and Value/Merge `deepMerge` of utils/index.ts, with Value/Merge/Laws for what it reads
--   and Value/Merge/Again for a second merge. A number is natural, and the fields that a loop
--   `for in` goes through on an array, a text, an object of dayjs or a file are a parameter.
-- - Form: components/Form/src/hooks. Form/Advanced is useAdvanced.ts: the widths of the columns,
--   the loop over the fields, and the state of the folding, with Form/Advanced/Folding for its
--   law. Form/Values is useFormValues.ts, with Form/Values/Ranges for `handleRangeTimeValue`.
--   Form/Events is useFormEvents.ts on a `Form`, which has the schemas, the model, the defaults and
--   the events that are emitted: Form/Events has `setFieldsValue`, with `getSchema` of
--   BasicForm.vue, Form/Events/Schemas the operations on schemas and `_setDefaultValue`, and
--   Form/Events/Submit `resetFields` and `handleSubmit`. Their laws are in Form/Events/Kept,
--   Form/Events/Removed, Form/Events/Appended and Form/Events/Reset. Form/Events/Basic is
--   BasicForm.vue, its mount, its watchers and the edits of the user, with
--   Form/Events/Basic/Edited for an edit that is reset. `handleFormValues` is a parameter of the
--   events, as it is an argument of the hook; the answer of the validation is another.
-- - Color: utils/color.ts on texts, character by character. Color/Bits has the numbers of three
--   channels, Color/Digit and Color/Hex their digits, and Color/Laws the round trip and the shades.
--   A number has at most nine digits, and `|` is computed on 32 bits: a channel has eight, so three
--   of them have 24, which are six digits.
-- - Base: lists on native numbers, searches, texts that are compared, objects as maps, and tests.
--
-- The files of laws stand below the files of the definitions. Each part's Tests has runs on small
-- inputs.
--
-- Not modelled: the luminance of a colour, which is a fraction, the small stores of the
-- settings and of the lock of the screen, the pages and the other components in Vue, the calls of the
-- server and the server itself. Of the router, the browser's
-- storage and the reactive proxies only what the modelled code relies on is there: a call of the
-- router ends before the next operation starts.

pub mod Base
pub mod Auth
pub mod Color
pub mod Form
pub mod Http
pub mod Memory
pub mod Persistent
pub mod Routes
pub mod Session
pub mod Storage
pub mod Table
pub mod Tabs
pub mod Tree
pub mod TreeHook
pub mod Value
