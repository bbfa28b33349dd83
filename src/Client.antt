-- ===== src/Client.antt =====
-- include/abb_librws/rws_client.h and src/rws_client.cpp: the requests of Robot Web Services, their
-- evaluation, and the subscriptions.
pub mod Constants
pub mod Types
pub mod Evaluation
pub mod Paths
pub mod Requests
pub mod Commands
pub mod Subscription
pub mod LogTexts
pub mod Actions
pub mod Creation
pub mod Defaults
pub mod Calls
