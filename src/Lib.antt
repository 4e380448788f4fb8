-- ===== src/Lib.antt =====
-- Head-Control: the browser's side: session, policy editors, machines, routes, keys and DNS records.
--
-- The program is an admin console for headscale. Its editor of access rules keeps a draft of the
-- policy in the browser, which is loaded from the server's model, changed by actions, compared with
-- the model for a summary, merged with a newer model after a conflict, and sent back as a save.
-- All of that is pure code in frontend/src/pages/acls/model.ts over the types of
-- frontend/src/api/types.ts, and is what the modules below Acl translate:
--
--   Acl.Ports        parsePorts, splitDst, joinDst, mergePorts, protoAllowsPorts
--   Acl.Selector     classify, isIpOrCidr (Cidr), userSelectors, validateSelector, buildOptions and
--                    restrictOptions (Options), restrictedSelector (Restricted), the checks of
--                    single fields (Fields)
--   Acl.Form         ruleToForm, formToRule, validateRule
--   Acl.Draft        the draft and the model, draftFromModel, toSaveBody
--   Acl.Reducer      draftReducer, a function from a draft, the number of keys made so far and an
--                    action to the next draft and number; Acl.Rebase adds the action "rebase"
--   Acl.References   ruleLabel, referencesOf, extraNoun
--   Acl.Diff         sameRule, diffKeys, diffExtras, extraStatus, diffDraft
--   Acl.Rebase       rebaseExtras, rebaseDraft
--   Acl.Page         the page around the draft, frontend/src/pages/acls/AclsBetaPage.tsx: its state, a
--                    step for each event (handle, then the effect run_effect), and the accounts that
--                    it gives of the unsaved changes (Shown)
--   Acl.Definitions  the tabs of groups, tag owners and hosts, frontend/src/pages/acls/DefinitionsTabs.tsx:
--                    the checks of their editors, and what the buttons dispatch (Tabs)
--   Acl.Picker       SelectorPicker of frontend/src/pages/acls/inputs.tsx: its state, a step for each
--                    event (handle, then the effect run_effect), and the groups of its list
--   Acl.Elements     the editors of grants, SSH rules, node attributes and tests,
--                    frontend/src/pages/acls/PolicySections.tsx: what their forms hold and save, and
--                    what stands against it (Issues)
--   Acl.Rules        the tab of rules, frontend/src/pages/acls/RulesTab.tsx: its search, its badges and
--                    the preview of a rule, ruleToHuJson
--   Json             the elements of a policy, canonical, renameInValue and mentions; getField,
--                    getList and setField (Fields)
--
-- The other pages work on the records of Api (frontend/src/api/types.ts) with the helpers of Format
-- (frontend/src/lib/format.ts). Machines translates from frontend/src/pages/MachinesPage.tsx the
-- filters of the list, nodeMatches, and the request that the dialog RoutesModal sends; beside it
-- stands what handleSetRoutes of internal/server/handlers_nodes.go makes of that request, which is
-- the contract between the two. Routes translates from frontend/src/pages/RoutesPage.tsx what needs
-- attention (Attention), the rows of the prefixes (Rows) and the requests of the buttons (Actions),
-- which go to the same handler. Keys translates the filters of the pre-auth keys from
-- frontend/src/pages/KeysPage.tsx. The browser's clock, its parser and printer of dates and its
-- toLowerCase are the record Format.Browser, a parameter.
--
-- Keys.Lockout is the tab of API keys of the same file with ConfirmDialog of
-- frontend/src/components/common.tsx, against the guard of internal/server/handlers_keys.go, which
-- protects the key that the UI itself uses. Dashboard translates attentionItems of
-- frontend/src/pages/DashboardPage.tsx; it gathers nodes under their prefixes as Routes does
-- (Routes.Gather). Audit is the export of the audit log as CSV, frontend/src/pages/SettingsPage.tsx,
-- with a reader of CSV that does not come from the source (Reader): it has the fields and quotes of
-- RFC 4180, and takes a line feed for the end of a record, which the export writes, as well as the
-- CRLF of RFC 4180.
--
-- Two more pages edit what several users share, and are state machines as Acl.Page is: a step is the
-- handler of an event and then the effect of the page. Dns is the card of extra records of
-- frontend/src/pages/DnsPage.tsx, with the backend's side of a save (Server, from
-- internal/dnsrecords/dnsrecords.go and internal/server/handlers_dns.go). PolicyText is the editor of
-- the policy as a text, frontend/src/pages/AclPage.tsx, with contentHints (Hints). Their effects run
-- in the source only where the query or the mark of edits has changed; in the model they run after
-- every event, as what they copy depends on nothing else.
--
-- Queries is frontend/src/api/queries.ts: the request of every hook that changes something, and the
-- queries that are fetched again after it.
--
-- Client is frontend/src/api/client.ts: the request that a call sends, what an answer comes to
-- (api_outcome), and when the listeners of an expired session are called (notifies). Session puts it
-- together with App.tsx and LoginPage.tsx: the app starts by checking the session, shows the login
-- form or its pages, and any answer of the backend may end the session.
--
-- Below them lie Common (tests and list functions over native numbers), Text (strings of the
-- language as lists of UTF-16 code units, with trim, split, join, indexOf, sort and decimal
-- numbers) and Dict (objects that serve as dictionaries, as the list of their own members in the
-- order of insertion).
--
-- How the source is read:
--   * `null`, `undefined` and a missing field are `none`; a result with `ok` or `error` is a sum.
--   * A key of `newKey` comes from a supply, the parameter `key_at`, as the n-th key that is made.
--     That keys differ from one another and from the ids of the rules is a hypothesis where a
--     theorem needs it.
--   * `k in m` finds own and inherited members (Dict.has). A read `m[k]` finds own members only; what
--     the source does with a function that it reads from `Object.prototype` is modelled in ruleToForm
--     (rule_to_form is `none` where it throws) and nowhere else. Keys that are array indices, which an object lists first, are kept in the order of insertion.
--   * In model.ts `toLowerCase` changes the letters A to Z only: the names that are compared without
--     case are those of fields, in ASCII. A field whose name holds the Kelvin sign, which the source
--     takes for a "k", is left out. In the tabs and the picker it is the parameter `lower_case`.
--   * The input of the picker is not disabled, and its options and its check stay as they are while
--     the user is at it. The parent keeps the value that it is given; the editors of tests keep only
--     its last member, which the picker would show next.
--   * A number of a JSON value is the text that JSON.stringify prints for it, and the snapshot of
--     a form is the value that the source prints.
--   * What runs side by side, the query of the model, a save, its reload and the user, is a list of
--     events in any order. The choice after a conflict is one event at the moment its reload ends,
--     since the dialog lies over the page until then.
--   * No definition takes fuel but the printing of a number, whose fuel is the number itself.
--   * relativeTime divides and rounds integers; the source divides floating point numbers, which
--     gives the same texts, since only differences below 60 days are printed from the quotients.
--   * handleSetRoutes sorts texts by their bytes and the model by their code units; only the
--     members of the list matter to the theorems.
--   * The hash of the text of the file of DNS records, the reading and printing of JSON,
--     strings.TrimSpace and the check of an address are parameters (Dns.Server.Library). A record of
--     the file that is neither of type A nor of type AAAA is left out. Whether the new file can take
--     the place of the old one is a field of the server; the backend sorts records by bytes and the
--     model by code units, which no theorem looks at.
--   * Of the keys of the queries the first part is modelled; those that a mutation gives have no other,
--     and stand for every query whose key begins with it.
--   * A question to headscale, whether it takes a text or carries a request out, is answered by the
--     event that brings the answer. Two requests of one hook do not run side by side: the
--     buttons that send them wait for the one that is under way.
--
-- Not modelled: the rendering of pages, the dialogs that create users, keys and nodes, the
-- registrations, the settings but for the export, the rest of the server, and validateCheckPeriod,
-- which adds floating point numbers, with the findings of the editor of SSH rules that rest on it.
pub mod Common
pub mod Text
pub mod Acl
pub mod Api
pub mod Format
pub mod Machines
pub mod Routes
pub mod Keys
pub mod Client
pub mod Session
pub mod Dict
pub mod Json
pub mod Dns
pub mod PolicyText
pub mod Audit
pub mod Dashboard
pub mod Queries
