-- ===== src/Acl.antt =====
-- The model of the ACLs editor, frontend/src/pages/acls/model.ts.
pub mod Ports
pub mod Selector
pub mod Draft
pub mod References
pub mod Reducer
pub mod Diff
pub mod Rebase
pub mod Form
pub mod Page
mod Definitions
mod Picker
mod Elements
mod Rules
mod Samples
mod Tests
