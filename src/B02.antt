-- ===== src/B02.antt =====
-- app/b02/main.py: the handlers of the mobile service, and what each user may see.
pub mod Handlers
pub mod Alerts
pub mod Visibility
pub mod Upload
pub mod Lists
pub mod Attachments
pub mod Login
